-- ===== src/Central/Agent.antt =====
-- src/commguard/central/agent.py: `NodeAgent`.
-- Clock readings, identifiers and what the backend collects are arguments, one record for each call;
-- the transport is a function on its own state.
pub mod Drain
pub mod Queue
pub mod Signing
pub mod Tests
use Prim.Native.String.{◌++◌ as append}
use comm_guard.Prelude.{
  ℕ, zero, suc, ◌+◌, String, Bool, true, false, not, ◌||◌, Option, none, some, List, [], ◌∷◌, ◌++◌,
  ℤ, pos, is_negative, ltz, to_nat, contains, if◌then◌else◌, non_empty, Exception, value_error,
  type_error, key_error, attribute_error, Result, ok, err, ◌>>=◌, ◌>>◌, raise_if,
}
use comm_guard.Central.Json.{
  Value, obj, text, int, bool, Fields, field, end, get, field_names, truthy,
}
use comm_guard.Central.Runtime.{DateTime, str}
use comm_guard.Central.Messages.{
  Payload, Python, TelemetryBatch, Heartbeat, batch_to_dict, heartbeat_to_dict, current_protocol,
  required,
}
use comm_guard.Central.Security.{sign_message}
use comm_guard.Central.Samples.{to_int, validate_telemetry_samples}
use comm_guard.Central.Server.{Ack}
use comm_guard.Central.Protocol.{protocol_samples}

pub record Agent : Type 0 where
  pub agent_id : String
  pub node_id : String
  pub experiment_session_id : String
  pub hmac_secret : String
  pub configuration_hash : String
  pub next_sequence : ℕ
  pub last_batch_id : Option String
  pub pending : List Payload

-- `NodeAgent.__init__`
unfoldable pub make_agent : (agent node session secret hash : String) → Result Agent
make_agent agent node session secret hash = do
  raise_if
      (not (non_empty agent)
        || (not (non_empty node) || (not (non_empty session) || not (non_empty secret))))
      (value_error "node agent requires identity, session, and HMAC secret")
  raise_if (not (non_empty hash)) (value_error "configuration_hash must be non-empty")
  ok (record {
    agent_id = agent;
    node_id = node;
    experiment_session_id = session;
    hmac_secret = secret;
    configuration_hash = hash;
    next_sequence = 0;
    last_batch_id = none;
    pending = [];
  })

-- What one call of `collect_once` reads.
pub record Reading : Type 0 where
  pub started_ns : ℤ
  pub ended_ns : ℤ
  pub collected : Result (List Fields)
  pub sample_uuids : ℕ → String
  pub batch_uuid : String
  pub created : DateTime

-- `_sign`
unfoldable pub sign_batch : Python → String → TelemetryBatch → Result Payload
unfolding sign_message batch_to_dict
sign_batch rt secret message = do
  unsigned ← batch_to_dict rt message
  signature ← sign_message rt unsigned secret
  batch_to_dict rt (record message { signature = some signature })

unfoldable pub sign_heartbeat : Python → String → Heartbeat → Result Payload
unfolding sign_message heartbeat_to_dict
sign_heartbeat rt secret message = do
  unsigned ← heartbeat_to_dict rt message
  signature ← sign_message rt unsigned secret
  heartbeat_to_dict rt (record message { signature = some signature })

-- `str(self.pending[-1]["batch_id"]) if self.pending else self.last_batch_id`
unfoldable pub previous_of : Option String → List Payload → Result (Option String)
previous_of last_id [] = ok last_id
previous_of last_id (m ∷ []) = do id ← required (key_error "batch_id") m.batch_id; ok (some id)
previous_of last_id (m ∷ n ∷ rest) = previous_of last_id (n ∷ rest)

abbrev pub batch_for : Python → Agent → Reading → List Fields → Option String → TelemetryBatch
batch_for rt a r samples previous = record {
  batch_id = append "batch-" r.batch_uuid;
  agent_id = a.agent_id;
  node_id = a.node_id;
  experiment_session_id = a.experiment_session_id;
  sequence = pos a.next_sequence;
  created_at_utc = rt.isoformat r.created;
  monotonic_start_ns = r.started_ns;
  monotonic_end_ns = if ltz r.started_ns r.ended_ns then r.ended_ns else r.started_ns;
  samples = samples;
  previous_batch_id = previous;
  signature = none;
  protocol_version = current_protocol;
  message_type = "telemetry_batch";
}

-- The message that `collect_once` appends.
unfoldable pub collected_message :
    Python → (Value → Result Fields) → Agent → Reading → Result Payload
unfolding protocol_samples previous_of sign_batch
collected_message rt dict_of a r = do
  backend ← r.collected
  samples ← protocol_samples rt dict_of r.sample_uuids 0 a.configuration_hash backend
  validate_telemetry_samples rt samples
  previous ← previous_of a.last_batch_id a.pending
  sign_batch rt a.hmac_secret (batch_for rt a r samples previous)

-- `collect_once`; an exception leaves the agent as it is.
unfoldable pub collect_once :
    Python → (Value → Result Fields) → Agent → Reading → Result (String × Agent)
unfolding collected_message
collect_once rt dict_of a r = do
  message ← collected_message rt dict_of a r
  ok (
    append "batch-" r.batch_uuid,
    record a { pending = a.pending ++ (message ∷ []); next_sequence = a.next_sequence + 1 },
  )

module _ {S : Type 0} (send : S → Payload → Result Ack × S) where
  -- What a call returns or raises, and the state that it leaves.
  pub record Outcome (R : Type 0) : Type 0 where
    pub result : Result R
    pub agent : Agent
    pub transport : S

  abbrev add_ack : Ack → Outcome (List Ack) → Outcome (List Ack)
  add_ack ack o = record o { result = o.result >>= λ acks. ok (ack ∷ acks) }

  -- The `while` loop of `flush`, on the pending messages.
  unfoldable pub flush_from : Agent → S → List Payload → Outcome (List Ack)
  flush_from a s [] = record { result = ok []; agent = record a { pending = [] }; transport = s }
  flush_from a s (message ∷ rest) =
      let (r, s') = send s message in
      let a' = record a { pending = message ∷ rest } in
      elim r [
        | err e ↦ record { result = err e; agent = a'; transport = s' }
        | ok ack ↦ elim ack.is_accepted [
          | false ↦ record { result = ok (ack ∷ []); agent = a'; transport = s' }
          | true ↦ elim message.batch_id [
            | none ↦ record {
              result = err (key_error "batch_id");
              agent = record a { pending = rest };
              transport = s';
            }
            | some id ↦ add_ack ack (flush_from (record a { last_batch_id = some id }) s' rest)
          ]
        ]
      ]

  -- `flush`
  unfoldable pub flush : Agent → S → Outcome (List Ack)
  unfolding flush_from
  flush a s = flush_from a s a.pending

  abbrev send_signed : Agent → S → Result Payload → Outcome Ack
  send_signed a s (err e) = record { result = err e; agent = a; transport = s }
  send_signed a s (ok message) =
      let (r, s') = send s message in record { result = r; agent = a; transport = s' }

  -- `heartbeat`: the number is used up before the message is signed and sent.
  unfoldable pub send_heartbeat : Python → Agent → S → String → DateTime → Outcome Ack
  unfolding sign_heartbeat
  send_heartbeat rt a s uuid created =
      send_signed (record a { next_sequence = a.next_sequence + 1 }) s
        (sign_heartbeat rt a.hmac_secret (record {
          heartbeat_id = append "heartbeat-" uuid;
          agent_id = a.agent_id;
          node_id = a.node_id;
          experiment_session_id = a.experiment_session_id;
          sequence = pos a.next_sequence;
          created_at_utc = rt.isoformat created;
          last_batch_id = a.last_batch_id;
          signature = none;
          protocol_version = current_protocol;
          message_type = "heartbeat";
        }))

  -- One cycle of `run`.
  unfoldable pub cycle : Python → (Value → Result Fields) → Agent → S → Reading → Outcome (List Ack)
  unfolding collect_once flush
  cycle rt dict_of a s r = elim (collect_once rt dict_of a r) [
    | err e ↦ record { result = err e; agent = a; transport = s }
    | ok (_, a') ↦ flush a' s
  ]

  -- The `for` loop of `run`, without the pauses: `n` cycles from number `index` on.
  unfoldable pub run_cycles :
      Python → (Value → Result Fields) → (ℕ → Reading) → Agent → S → ℕ → ℕ → Outcome (Unit {0})
  unfolding cycle
  run_cycles rt dict_of readings a s index zero = record {
    result = ok tt;
    agent = a;
    transport = s;
  }
  run_cycles rt dict_of readings a s index (suc n) =
      let o = cycle rt dict_of a s (readings index) in
      elim o.result [
        | err e ↦ record { result = err e; agent = o.agent; transport = o.transport }
        | ok acks ↦ run_cycles rt dict_of readings o.agent o.transport (suc index) n
      ]

  -- `run`
  unfoldable pub run_agent :
      Python
      → (Value → Result Fields)
      → (ℕ → Reading)
      → Agent
      → S
      → (cycles interval : ℤ) → Outcome (Unit {0})
  unfolding run_cycles
  run_agent rt dict_of readings a s cycles interval =
      if ltz cycles (pos 1) || is_negative interval
      then record {
        result = err (value_error "agent cycles must be positive and interval non-negative");
        agent = a;
        transport = s;
      }
      else run_cycles rt dict_of readings a s 0 (to_nat cycles)
