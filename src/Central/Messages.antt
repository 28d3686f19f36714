-- ===== src/Central/Messages.antt =====
-- src/commguard/central/schemas.py: the protocol messages and their validation.
pub mod Validity
pub mod Roundtrip
use Prim.Native.String.{◌++◌ as append}
use comm_guard.Prelude.{
  ℕ, String, Bool, true, false, not, ◌&&◌, ◌||◌, Option, none, some, List, [], ◌==◌, ℤ, is_negative,
  ltz, to_nat, is_some, is_empty, if◌then◌else◌, non_empty, get_or, Exception, value_error,
  type_error, Result, ok, err, ◌>>=◌, ◌>>◌, raise_if,
}
use comm_guard.Central.Json.{Fields}
use comm_guard.Central.Runtime.{DateTime, Runtime}

-- A message as it arrives: `none` is a key that is absent. `last_batch_id` may be there and null.
-- `unknown` lists the other keys.
pub record Payload : Type 0 where
  pub batch_id : Option String
  pub heartbeat_id : Option String
  pub agent_id : Option String
  pub node_id : Option String
  pub experiment_session_id : Option String
  pub sequence : Option ℤ
  pub created_at_utc : Option String
  pub monotonic_start_ns : Option ℤ
  pub monotonic_end_ns : Option ℤ
  pub samples : Option (List Fields)
  pub previous_batch_id : Option String
  pub last_batch_id : Option (Option String)
  pub signature : Option String
  pub protocol_version : Option String
  pub message_type : Option String
  pub unknown : List String

-- `PROTOCOL_VERSION`
abbrev pub current_protocol : String
current_protocol = "1.0"

abbrev pub Python : Type 0
Python = Runtime Payload

-- `_utc`
unfoldable pub utc : Python → String → String → Result DateTime
utc rt value name = elim (rt.from_iso value) [
  | none ↦ err (value_error (append name " must be an ISO-8601 timestamp"))
  | some parsed ↦
      if parsed.aware then ok parsed else err (value_error (append name " must include a timezone"))
]

pub record TelemetryBatch : Type 0 where
  pub batch_id : String
  pub agent_id : String
  pub node_id : String
  pub experiment_session_id : String
  pub sequence : ℤ
  pub created_at_utc : String
  pub monotonic_start_ns : ℤ
  pub monotonic_end_ns : ℤ
  pub samples : List Fields
  pub previous_batch_id : Option String
  pub signature : Option String
  pub protocol_version : String
  pub message_type : String

-- `TelemetryBatch.validate`
unfoldable pub validate_batch : Python → TelemetryBatch → Result DateTime
unfolding utc
validate_batch rt b = do
  raise_if (not (b.protocol_version == current_protocol))
      (value_error (append "unsupported protocol version " (rt.repr b.protocol_version)))
  raise_if (not (b.message_type == "telemetry_batch"))
      (value_error "message_type must be telemetry_batch")
  raise_if (not (non_empty b.batch_id)) (value_error "batch_id must be non-empty")
  raise_if (not (non_empty b.agent_id)) (value_error "agent_id must be non-empty")
  raise_if (not (non_empty b.node_id)) (value_error "node_id must be non-empty")
  raise_if (not (non_empty b.experiment_session_id))
      (value_error "experiment_session_id must be non-empty")
  raise_if (is_negative b.sequence) (value_error "sequence must be non-negative")
  raise_if (is_negative b.monotonic_start_ns || ltz b.monotonic_end_ns b.monotonic_start_ns)
      (value_error "batch monotonic interval must be ordered and non-negative")
  raise_if (is_empty b.samples) (value_error "telemetry batch must contain samples")
  utc rt b.created_at_utc "created_at_utc"

-- A keyword argument without a default.
abbrev pub required {ℓ} : {A : Type ℓ} → Exception → Option A → Result A
required e none = err e
required e (some a) = ok a

-- `cls(**payload)`: every field without a default is given and no other key is.
unfoldable pub construct_batch : Exception → Payload → Result TelemetryBatch
construct_batch invalid p = do
  batch_id ← required invalid p.batch_id
  agent_id ← required invalid p.agent_id
  node_id ← required invalid p.node_id
  session ← required invalid p.experiment_session_id
  sequence ← required invalid p.sequence
  created ← required invalid p.created_at_utc
  start ← required invalid p.monotonic_start_ns
  stop ← required invalid p.monotonic_end_ns
  raise_if (is_some p.heartbeat_id || (is_some p.last_batch_id || not (is_empty p.unknown))) invalid
  ok (record {
    batch_id = batch_id;
    agent_id = agent_id;
    node_id = node_id;
    experiment_session_id = session;
    sequence = sequence;
    created_at_utc = created;
    monotonic_start_ns = start;
    monotonic_end_ns = stop;
    samples = get_or [] p.samples;
    previous_batch_id = p.previous_batch_id;
    signature = p.signature;
    protocol_version = get_or current_protocol p.protocol_version;
    message_type = get_or "telemetry_batch" p.message_type;
  })

-- `TelemetryBatch.from_dict`
unfoldable pub batch_from_dict : Python → Payload → Result TelemetryBatch
unfolding construct_batch validate_batch
batch_from_dict rt p = do
  message ←
      construct_batch (value_error (append "invalid telemetry batch fields: " (rt.call_error p))) p
  validate_batch rt message
  ok message

pub record Heartbeat : Type 0 where
  pub heartbeat_id : String
  pub agent_id : String
  pub node_id : String
  pub experiment_session_id : String
  pub sequence : ℤ
  pub created_at_utc : String
  pub last_batch_id : Option String
  pub signature : Option String
  pub protocol_version : String
  pub message_type : String

-- `Heartbeat.validate`
unfoldable pub validate_heartbeat : Python → Heartbeat → Result DateTime
unfolding utc
validate_heartbeat rt b = do
  raise_if (not (b.protocol_version == current_protocol) || not (b.message_type == "heartbeat"))
      (value_error "unsupported heartbeat protocol envelope")
  raise_if (not (non_empty b.heartbeat_id)) (value_error "heartbeat_id must be non-empty")
  raise_if (not (non_empty b.agent_id)) (value_error "agent_id must be non-empty")
  raise_if (not (non_empty b.node_id)) (value_error "node_id must be non-empty")
  raise_if (not (non_empty b.experiment_session_id))
      (value_error "experiment_session_id must be non-empty")
  raise_if (is_negative b.sequence) (value_error "sequence must be non-negative")
  utc rt b.created_at_utc "created_at_utc"

unfoldable pub construct_heartbeat : Exception → Payload → Result Heartbeat
construct_heartbeat invalid p = do
  heartbeat_id ← required invalid p.heartbeat_id
  agent_id ← required invalid p.agent_id
  node_id ← required invalid p.node_id
  session ← required invalid p.experiment_session_id
  sequence ← required invalid p.sequence
  created ← required invalid p.created_at_utc
  last ← required invalid p.last_batch_id
  raise_if
      (is_some p.batch_id
        || (is_some p.samples
            || (is_some p.monotonic_start_ns
                || (is_some p.monotonic_end_ns
                    || (is_some p.previous_batch_id || not (is_empty p.unknown))))))
      invalid
  ok (record {
    heartbeat_id = heartbeat_id;
    agent_id = agent_id;
    node_id = node_id;
    experiment_session_id = session;
    sequence = sequence;
    created_at_utc = created;
    last_batch_id = last;
    signature = p.signature;
    protocol_version = get_or current_protocol p.protocol_version;
    message_type = get_or "heartbeat" p.message_type;
  })

-- `Heartbeat.from_dict`
unfoldable pub heartbeat_from_dict : Python → Payload → Result Heartbeat
unfolding construct_heartbeat validate_heartbeat
heartbeat_from_dict rt p = do
  message ←
      construct_heartbeat (value_error (append "invalid heartbeat fields: " (rt.call_error p))) p
  validate_heartbeat rt message
  ok message

-- The envelope that `asdict` gives, with every key present.
abbrev pub batch_payload : TelemetryBatch → Payload
batch_payload b = record {
  batch_id = some b.batch_id;
  heartbeat_id = none;
  agent_id = some b.agent_id;
  node_id = some b.node_id;
  experiment_session_id = some b.experiment_session_id;
  sequence = some b.sequence;
  created_at_utc = some b.created_at_utc;
  monotonic_start_ns = some b.monotonic_start_ns;
  monotonic_end_ns = some b.monotonic_end_ns;
  samples = some b.samples;
  previous_batch_id = b.previous_batch_id;
  last_batch_id = none;
  signature = b.signature;
  protocol_version = some b.protocol_version;
  message_type = some b.message_type;
  unknown = [];
}

abbrev pub heartbeat_payload : Heartbeat → Payload
heartbeat_payload b = record {
  batch_id = none;
  heartbeat_id = some b.heartbeat_id;
  agent_id = some b.agent_id;
  node_id = some b.node_id;
  experiment_session_id = some b.experiment_session_id;
  sequence = some b.sequence;
  created_at_utc = some b.created_at_utc;
  monotonic_start_ns = none;
  monotonic_end_ns = none;
  samples = none;
  previous_batch_id = none;
  last_batch_id = some b.last_batch_id;
  signature = b.signature;
  protocol_version = some b.protocol_version;
  message_type = some b.message_type;
  unknown = [];
}

-- `TelemetryBatch.to_dict`, `Heartbeat.to_dict`
unfoldable pub batch_to_dict : Python → TelemetryBatch → Result Payload
unfolding validate_batch
batch_to_dict rt b = do validate_batch rt b; ok (batch_payload b)

unfoldable pub heartbeat_to_dict : Python → Heartbeat → Result Payload
unfolding validate_heartbeat
heartbeat_to_dict rt b = do validate_heartbeat rt b; ok (heartbeat_payload b)
