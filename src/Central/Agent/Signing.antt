-- ===== src/Central/Agent/Signing.antt =====
-- What `_sign` gives, as `verify_message` sees it.
use comm_guard.Prelude.{String, ◌≡◌, refl, true, some, ok, >>=-eq-ok, eq_refl}
use comm_guard.Central.Messages.{
  Payload, Python, TelemetryBatch, batch_to_dict, batch_payload, validate_batch, Heartbeat,
  heartbeat_to_dict, heartbeat_payload, validate_heartbeat,
}
use comm_guard.Central.Security.{sign_message, canonical_bytes, verify_message, compare_digest}
use comm_guard.Central.Agent.{sign_batch, sign_heartbeat}

-- A signature is in hexadecimal digits.
module _ (rt : Python) (secret : String)
    (ascii : (m : Payload) (s : String)
      → sign_message rt m secret ≡ ok s
      → rt.is_ascii s ≡ true) where
  verify_message-signed :
      (unsigned m : Payload) (signature : String)
      → sign_message rt unsigned secret ≡ ok signature
      → m ≡ record unsigned { signature = some signature }
      → verify_message rt m secret ≡ ok true
  unfolding verify_message compare_digest canonical_bytes
  verify_message-signed unsigned m signature h same =
      rw (same, verify_message, h, compare_digest, ascii unsigned signature h, eq_refl signature)
        refl

  -- A batch that `_sign` returns passes `verify_message` with the same secret.
  pub verify_message-sign_batch :
      (b : TelemetryBatch) (m : Payload)
      → sign_batch rt secret b ≡ ok m
      → verify_message rt m secret ≡ ok true
  unfolding sign_batch batch_to_dict
  verify_message-sign_batch b m h =
      let (unsigned, u, h1) = >>=-eq-ok (batch_to_dict rt b) _ h in
      let (signature, s, h2) = >>=-eq-ok (sign_message rt unsigned secret) _ h1 in
      let (_, _, h3) =
        >>=-eq-ok (validate_batch rt (record b { signature = some signature })) _ h2 in
      let (_, _, h4) = >>=-eq-ok (validate_batch rt b) _ u in
      let plain : batch_payload b ≡ unsigned = cc h4 in
      let signed : batch_payload (record b { signature = some signature }) ≡ m = cc h3 in
      verify_message-signed unsigned m signature s (rw (← plain, ← signed) refl)

  -- The same for a heartbeat.
  pub verify_message-sign_heartbeat :
      (b : Heartbeat) (m : Payload)
      → sign_heartbeat rt secret b ≡ ok m
      → verify_message rt m secret ≡ ok true
  unfolding sign_heartbeat heartbeat_to_dict
  verify_message-sign_heartbeat b m h =
      let (unsigned, u, h1) = >>=-eq-ok (heartbeat_to_dict rt b) _ h in
      let (signature, s, h2) = >>=-eq-ok (sign_message rt unsigned secret) _ h1 in
      let (_, _, h3) =
        >>=-eq-ok (validate_heartbeat rt (record b { signature = some signature })) _ h2 in
      let (_, _, h4) = >>=-eq-ok (validate_heartbeat rt b) _ u in
      let plain : heartbeat_payload b ≡ unsigned = cc h4 in
      let signed : heartbeat_payload (record b { signature = some signature }) ≡ m = cc h3 in
      verify_message-signed unsigned m signature s (rw (← plain, ← signed) refl)
