-- ===== src/Central/Messages/Validity.antt =====
-- What `from_dict` guarantees of the message that it returns.
use comm_guard.Prelude.{
  ◌≡◌, true, false, none, some, [], arith, is_negative, ltz, is_empty, non_empty, get_or, Exception,
  ok, ◌>>=◌, >>=-eq-ok,
}
use comm_guard.Central.Runtime.{DateTime}
use comm_guard.Central.Messages.{
  Payload, Python, TelemetryBatch, validate_batch, construct_batch, batch_from_dict, Heartbeat,
  validate_heartbeat, construct_heartbeat, heartbeat_from_dict,
}

-- A well-formed batch.
pub record IsValidBatch (rt : Python) (b : TelemetryBatch) : Type 0 where
  pub has_batch_id : non_empty b.batch_id ≡ true
  pub has_agent_id : non_empty b.agent_id ≡ true
  pub has_node_id : non_empty b.node_id ≡ true
  pub has_session : non_empty b.experiment_session_id ≡ true
  pub sequence_nonneg : is_negative b.sequence ≡ false
  pub start_nonneg : is_negative b.monotonic_start_ns ≡ false
  pub interval_ordered : ltz b.monotonic_end_ns b.monotonic_start_ns ≡ false
  pub has_samples : is_empty b.samples ≡ false

pub validate_batch-IsValidBatch :
    (rt : Python) (b : TelemetryBatch) (t : DateTime)
    → validate_batch rt b ≡ ok t
    → IsValidBatch rt b
unfolding validate_batch
validate_batch-IsValidBatch rt b t h = record {
  has_batch_id = ground arith;
  has_agent_id = ground arith;
  has_node_id = ground arith;
  has_session = ground arith;
  sequence_nonneg = ground arith;
  start_nonneg = ground arith;
  interval_ordered = ground arith;
  has_samples = ground arith;
}

-- The fields of the message are those of the payload.
pub record OfPayload (p : Payload) (b : TelemetryBatch) : Type 0 where
  pub same_batch : p.batch_id ≡ some b.batch_id
  pub same_agent : p.agent_id ≡ some b.agent_id
  pub same_node : p.node_id ≡ some b.node_id
  pub same_sequence : p.sequence ≡ some b.sequence
  pub no_heartbeat : p.heartbeat_id ≡ none
  pub same_samples : get_or [] p.samples ≡ b.samples

construct_batch-OfPayload :
    (e : Exception) (p : Payload) (b : TelemetryBatch) → construct_batch e p ≡ ok b → OfPayload p b
unfolding construct_batch
construct_batch-OfPayload e p b h = record {
  same_batch = ground arith;
  same_agent = ground arith;
  same_node = ground arith;
  same_sequence = ground arith;
  no_heartbeat = ground arith;
  same_samples = ground arith;
}

pub batch_from_dict-valid :
    (rt : Python) (p : Payload) (b : TelemetryBatch)
    → batch_from_dict rt p ≡ ok b
    → OfPayload p b × IsValidBatch rt b
unfolding batch_from_dict
batch_from_dict-valid rt p b h =
    let (b', e, h') = >>=-eq-ok (construct_batch _ p) (λ m. validate_batch rt m >>= λ _. ok m) h in
    let (t, v, same) = >>=-eq-ok (validate_batch rt b') (λ _. ok b') h' in
    let eq : b' ≡ b = ground arith in
    rw (← eq) (construct_batch-OfPayload _ p b' e, validate_batch-IsValidBatch rt b' t v)

pub record IsValidHeartbeat (b : Heartbeat) : Type 0 where
  pub has_heartbeat_id : non_empty b.heartbeat_id ≡ true
  pub has_agent_id : non_empty b.agent_id ≡ true
  pub has_node_id : non_empty b.node_id ≡ true
  pub sequence_nonneg : is_negative b.sequence ≡ false

pub record HeartbeatOf (p : Payload) (b : Heartbeat) : Type 0 where
  pub same_heartbeat : p.heartbeat_id ≡ some b.heartbeat_id
  pub same_agent : p.agent_id ≡ some b.agent_id
  pub same_node : p.node_id ≡ some b.node_id
  pub same_sequence : p.sequence ≡ some b.sequence
  pub no_batch : p.batch_id ≡ none

validate_heartbeat-valid :
    (rt : Python) (b : Heartbeat) (t : DateTime)
    → validate_heartbeat rt b ≡ ok t
    → IsValidHeartbeat b
unfolding validate_heartbeat
validate_heartbeat-valid rt b t h = record {
  has_heartbeat_id = ground arith;
  has_agent_id = ground arith;
  has_node_id = ground arith;
  sequence_nonneg = ground arith;
}

construct_heartbeat-HeartbeatOf :
    (e : Exception) (p : Payload) (b : Heartbeat) → construct_heartbeat e p ≡ ok b → HeartbeatOf p b
unfolding construct_heartbeat
construct_heartbeat-HeartbeatOf e p b h = record {
  same_heartbeat = ground arith;
  same_agent = ground arith;
  same_node = ground arith;
  same_sequence = ground arith;
  no_batch = ground arith;
}

pub heartbeat_from_dict-valid :
    (rt : Python) (p : Payload) (b : Heartbeat)
    → heartbeat_from_dict rt p ≡ ok b
    → HeartbeatOf p b × IsValidHeartbeat b
unfolding heartbeat_from_dict
heartbeat_from_dict-valid rt p b h =
    let (b', e, h') =
      >>=-eq-ok (construct_heartbeat _ p) (λ m. validate_heartbeat rt m >>= λ _. ok m) h in
    let (t, v, same) = >>=-eq-ok (validate_heartbeat rt b') (λ _. ok b') h' in
    let eq : b' ≡ b = ground arith in
    rw (← eq) (construct_heartbeat-HeartbeatOf _ p b' e, validate_heartbeat-valid rt b' t v)
