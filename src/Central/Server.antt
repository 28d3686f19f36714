-- ===== src/Central/Server.antt =====
-- src/commguard/central/server.py: `CentralIngestionService`, its state and `ingest`.
-- The checks of `ingest` stand in the order of the source, in four groups; the theorems are in the
-- modules below.
pub mod Replies
pub mod Ingest
pub mod Trace
pub mod Health
pub mod Window
use Prim.Native.String.{◌++◌ as append}
use package.text.Mathlib.Text.{find?}
use comm_guard.Prelude.{
  ℕ, zero, suc, ◌+◌, String, Bool, true, false, not, ◌&&◌, ◌||◌, Option, none, some, List, [], ◌∷◌,
  ◌++◌, map, ◌==◌, max, ℤ, pos, negsuc, ltz, distance, ltb, is_some, is_empty, if◌then◌else◌,
  non_empty, every, same_set, sorted, Dict, empty_dict, put, get_or, lookup, keys, Exception,
  value_error, type_error, Result, ok, err, ◌>>=◌, ◌>>◌, raise_if,
}
use comm_guard.Central.Json.{Fields, int, get}
use comm_guard.Central.Runtime.{DateTime, str}
use comm_guard.Central.Messages.{
  Payload, Python, current_protocol, TelemetryBatch, batch_from_dict, Heartbeat,
  heartbeat_from_dict,
}
use comm_guard.Central.Security.{canonical_bytes, verify_message, validate_payload_size}
use comm_guard.Central.Samples.{validate_telemetry_samples}

pub record AgentRegistration : Type 0 where
  pub agent_id : String
  pub node_id : String
  pub hmac_secret : String

-- `reason_code`: each constructor is the text of its name.
pub data Reason : Type 0 where
  accepted already_accepted payload_too_large privacy_violation invalid_sample : Reason
  unsupported_protocol_version invalid_message unknown_agent node_identity_mismatch : Reason
  invalid_signature session_mismatch unknown_message_type message_id_conflict : Reason
  stale_sequence sequence_gap clock_skew sample_clock_skew batch_chain_mismatch : Reason

pub record Ack : Type 0 where
  pub message_id : String
  pub is_accepted : Bool
  pub reason_code : Reason
  pub detail : String
  pub server_time_utc : String
  pub last_accepted_sequence : Option ℤ

-- A stored sample, with the batch that brought it.
abbrev pub Evidence : Type 0
Evidence = String × Fields

-- The service object. Durations are in microseconds.
pub record Service : Type 0 where
  pub registrations : List (String × AgentRegistration)
  pub experiment_session_id : String
  pub expected_nodes : List String
  pub expected_agents : List String
  pub maximum_payload_bytes : ℕ
  pub maximum_clock_skew : ℕ
  pub stale_after : ℕ
  pub last_sequence_by_agent : Dict ℤ
  pub last_batch_by_agent : Dict String
  pub last_seen_by_node : Dict DateTime
  pub last_seen_by_agent : Dict DateTime
  pub seen_message_ids : String → Bool
  pub accepted_message_digests : Dict String
  pub accepted_samples_by_node : Dict (List Evidence)
  pub accepted_samples_by_agent : Dict (List Evidence)

-- `AgentRegistration.validate`
unfoldable pub is_valid_registration : AgentRegistration → Bool
is_valid_registration r = non_empty r.agent_id && (non_empty r.node_id && non_empty r.hmac_secret)

validate_registrations : List (String × AgentRegistration) → Result (Unit {0})
validate_registrations [] = ok tt
validate_registrations ((agent_id, r) ∷ rest) =
    let others = validate_registrations rest in
    if not (is_valid_registration r)
    then err (value_error "agent registration requires agent/node identity and HMAC secret")
    else if not (agent_id == r.agent_id)
    then err (value_error "registration mapping key must equal agent_id")
    else others

-- `CentralIngestionService.__init__`
unfoldable pub make_service :
    List (String × AgentRegistration) → String → List String → ℕ → ℕ → ℕ → Result Service
unfolding validate_registrations is_valid_registration
make_service registrations session nodes maximum_bytes skew stale = do
  validate_registrations registrations
  raise_if (not (same_set nodes (map (λ e. e.1.node_id) registrations)))
      (value_error "expected nodes must exactly match registered node IDs")
  raise_if (not (non_empty session)) (value_error "experiment_session_id is required")
  raise_if (ltb maximum_bytes 1) (value_error "maximum_payload_bytes must be positive")
  raise_if (ltb stale 1)
      (value_error "clock skew and staleness limits must be non-negative/positive")
  ok (record {
    registrations = registrations;
    experiment_session_id = session;
    expected_nodes = sorted nodes;
    expected_agents = sorted (keys registrations);
    maximum_payload_bytes = maximum_bytes;
    maximum_clock_skew = skew;
    stale_after = stale;
    last_sequence_by_agent = empty_dict;
    last_batch_by_agent = empty_dict;
    last_seen_by_node = empty_dict;
    last_seen_by_agent = empty_dict;
    seen_message_ids = λ _. false;
    accepted_message_digests = empty_dict;
    accepted_samples_by_node = empty_dict;
    accepted_samples_by_agent = empty_dict;
  })
