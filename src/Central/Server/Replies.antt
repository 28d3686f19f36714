-- ===== src/Central/Server/Replies.antt =====
-- The replies of `CentralIngestionService.ingest` and what it reads of a message: `_ack`, `_reason`, the parsed
-- message and its identifiers.
use package.text.Mathlib.Text.{find?}
use comm_guard.Prelude.{
  ℕ, String, Bool, true, false, not, Option, none, some, List, [], ◌∷◌, ◌==◌, max, ℤ, is_some,
  if◌then◌else◌, non_empty, get_or,
}
use comm_guard.Central.Runtime.{DateTime}
use comm_guard.Central.Messages.{Payload, Python, TelemetryBatch, Heartbeat}
use comm_guard.Central.Security.{canonical_bytes}
use comm_guard.Central.Server.{Reason, Ack, Service}

-- The arguments of `_ack` on a branch that returns without a change of state.
pub record Reply : Type 0 where
  pub is_accepted : Bool
  pub reason : Reason
  pub detail : String
  pub agent : String

-- `_ack`, at the clock reading `now`; no agent is the empty text.
unfoldable pub make_ack : Python → Service → DateTime → String → Reply → Ack
make_ack rt s now message_id r = record {
  message_id = message_id;
  is_accepted = r.is_accepted;
  reason_code = r.reason;
  detail = r.detail;
  server_time_utc = rt.isoformat now;
  last_accepted_sequence = s.last_sequence_by_agent r.agent;
}

-- `_reason`: the first code that occurs in the exception's text.
unfoldable pub reason_of : String → Reason
reason_of s =
    if is_some (find? s "payload_too_large")
    then Reason.payload_too_large
    else if is_some (find? s "privacy_violation")
    then Reason.privacy_violation
    else if is_some (find? s "invalid_sample")
    then Reason.invalid_sample
    else if is_some (find? s "unsupported protocol version")
    then Reason.unsupported_protocol_version
    else Reason.invalid_message

-- `a or b` on texts that may be absent
abbrev pub or_else : Option String → Option String → Option String
or_else none b = b
or_else (some s) b = if non_empty s then some s else b

abbrev pub message_id_of : Payload → String
message_id_of p = get_or "unknown" (or_else p.batch_id (or_else p.heartbeat_id none))

abbrev pub agent_id_of : Payload → String
agent_id_of p = get_or "" (or_else p.agent_id none)

pub data Message : Type 0 where
  batch : TelemetryBatch → Message
  heartbeat : Heartbeat → Message

abbrev pub id_of : Message → String
id_of (batch b) = b.batch_id
id_of (heartbeat b) = b.heartbeat_id

abbrev pub sender_of : Message → String
sender_of (batch b) = b.agent_id
sender_of (heartbeat b) = b.agent_id

abbrev pub sequence_of : Message → ℤ
sequence_of (batch b) = b.sequence
sequence_of (heartbeat b) = b.sequence

abbrev pub created_of : Message → String
created_of (batch b) = b.created_at_utc
created_of (heartbeat b) = b.created_at_utc

abbrev pub node_of : Message → String
node_of (batch b) = b.node_id
node_of (heartbeat b) = b.node_id

abbrev pub refuse : String → Reason → String → Reply
refuse agent reason detail = record {
  is_accepted = false;
  reason = reason;
  detail = detail;
  agent = agent;
}

abbrev pub repr_option : Python → Option String → String
repr_option rt none = "None"
repr_option rt (some s) = rt.repr s

abbrev pub eq_option : Option String → String → Bool
eq_option none s = false
eq_option (some t) s = t == s

-- `max(skews)`
unfoldable pub maximum : List ℕ → ℕ
maximum [] = 0
maximum (x ∷ xs) = max x (maximum xs)

-- `expected is not None and previous != expected`
abbrev pub breaks_chain : Option String → Option String → Bool
breaks_chain none previous = false
breaks_chain (some expected) previous = not (eq_option previous expected)

-- The digest of the whole payload.
unfoldable pub digest_of : Python → Payload → String
unfolding canonical_bytes
digest_of rt p = rt.sha256 (canonical_bytes rt p true)
