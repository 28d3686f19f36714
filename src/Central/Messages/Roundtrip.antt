-- ===== src/Central/Messages/Roundtrip.antt =====
-- `to_dict` and `from_dict` of the protocol messages.
use comm_guard.Prelude.{◌≡◌, arith, ok, >>=-eq-ok}
use comm_guard.Central.Messages.{
  Payload, Python, TelemetryBatch, validate_batch, construct_batch, batch_from_dict, batch_payload,
  batch_to_dict, Heartbeat, validate_heartbeat, construct_heartbeat, heartbeat_from_dict,
  heartbeat_payload, heartbeat_to_dict,
}

-- What `TelemetryBatch.to_dict` returns, `from_dict` reads back as the same batch.
pub batch_from_dict-to_dict :
    (rt : Python) (b : TelemetryBatch) (p : Payload)
    → batch_to_dict rt b ≡ ok p
    → batch_from_dict rt p ≡ ok b
unfolding batch_to_dict
batch_from_dict-to_dict rt b p h =
    let (t, v, e) = >>=-eq-ok (validate_batch rt b) (λ _. ok (batch_payload b)) h in
    let same : batch_payload b ≡ p = ground arith in
    rw (← same) (unfold batch_from_dict construct_batch in rw v)

-- The same of a heartbeat.
pub heartbeat_from_dict-to_dict :
    (rt : Python) (b : Heartbeat) (p : Payload)
    → heartbeat_to_dict rt b ≡ ok p
    → heartbeat_from_dict rt p ≡ ok b
unfolding heartbeat_to_dict
heartbeat_from_dict-to_dict rt b p h =
    let (t, v, e) = >>=-eq-ok (validate_heartbeat rt b) (λ _. ok (heartbeat_payload b)) h in
    let same : heartbeat_payload b ≡ p = ground arith in
    rw (← same) (unfold heartbeat_from_dict construct_heartbeat in rw v)
