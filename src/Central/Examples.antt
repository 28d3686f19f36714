-- ===== src/Central/Examples.antt =====
-- A small runtime, service and messages: inputs on which the definitions are evaluated.
use Prim.Native.String.{◌++◌ as append}
use comm_guard.Prelude.{
  ℕ, String, true, false, Option, none, some, List, [], ◌∷◌, ◌==◌, pos, if◌then◌else◌, get_or,
  empty_dict,
}
use comm_guard.Central.Json.{Value, null, bool, int, text, obj, Fields, end, field}
use comm_guard.Central.Runtime.{DateTime}
use comm_guard.Central.Messages.{Payload, Python}
use comm_guard.Central.Security.{field_units}
use comm_guard.Central.Server.{AgentRegistration, Service}
use comm_guard.Central.Server.Trace.{Event}

-- The clock reads 1 000 s; texts that name a time are "now", "late" and "naive".
abbrev pub at : ℕ → DateTime
at n = record { micros = n; aware = true }

abbrev iso : String → Option DateTime
iso s =
    if s == "now"
    then some (at 1000000000)
    else if s == "late"
    then some (at 2000000000)
    else if s == "naive"
    then some (record { micros = 1000000000; aware = false })
    else none

-- A stand-in for the canonical text: the parts that the examples vary.
abbrev dump : Payload → String
dump p = append (get_or "-" p.batch_id) (
    append (get_or "-" p.heartbeat_id)
      (append (get_or "-" p.created_at_utc) (get_or "-" p.signature)))

abbrev pub toy : Python
toy = record {
  dumps = dump;
  hmac_sha256 = λ key message. append key message;
  is_ascii = λ s. true;
  sha256 = λ s. s;
  from_iso = iso;
  isoformat = λ t. "now";
  int_of_text = λ s. none;
  str_of_value = λ v. "value";
  lower = λ s. s;
  repr = λ s. s;
  decimal = λ n. "n";
  seconds = λ n. "n";
  repr_sorted = λ xs. "keys";
  fmean = λ xs. int (pos 5);
  call_error = λ p. "keywords";
}

abbrev pub reading : String → Value
reading unit = obj (
    field "value" (int (pos 5))
      (field "unit" (text unit) (field "supported" (bool true) (field "error" null end))))

abbrev readings : List (String × String) → Fields
readings [] = end
readings ((name, unit) ∷ rest) = field name (reading unit) (readings rest)

abbrev pub sample_at : String → Fields
sample_at observed = field "sample_id" (text "s1") (
    field "observed_at_utc" (text observed) (
      field "monotonic_ns" (int (pos 10)) (
        field "gpu_index" (int (pos 0)) (
          field "gpu_uuid" (text "GPU-0") (
            field "sequence_number" (int (pos 0)) (
              field "rank" (int (pos 0)) (
                field "process_id" (int (pos 7)) (
                  field "configuration_hash" (text "c") (
                    field "validity_flags" (obj end) (
                      field "telemetry_support_flags" (obj end)
                        (field "fields" (obj (readings field_units)) end)))))))))))

abbrev pub sample : Fields
sample = sample_at "now"

abbrev pub secret : String
secret = "key"

-- Batch `id` with number `n`, signed.
abbrev pub batch_of : String → ℕ → Option String → Payload
batch_of id n previous = record {
  batch_id = some id;
  heartbeat_id = none;
  agent_id = some "agent-0";
  node_id = some "node";
  experiment_session_id = some "session";
  sequence = some (pos n);
  created_at_utc = some "now";
  monotonic_start_ns = some (pos 1);
  monotonic_end_ns = some (pos 2);
  samples = some (sample ∷ []);
  previous_batch_id = previous;
  last_batch_id = none;
  signature = some (append secret (append id "-now-"));
  protocol_version = some "1.0";
  message_type = some "telemetry_batch";
  unknown = [];
}

abbrev pub registration : AgentRegistration
registration = record { agent_id = "agent-0"; node_id = "node"; hmac_secret = secret }

-- A service with one registered agent, as the constructor leaves it.
abbrev pub fresh : Service
fresh = record {
  registrations = ("agent-0", registration) ∷ [];
  experiment_session_id = "session";
  expected_nodes = "node" ∷ [];
  expected_agents = "agent-0" ∷ [];
  maximum_payload_bytes = 1000;
  maximum_clock_skew = 30000000;
  stale_after = 15000000;
  last_sequence_by_agent = empty_dict;
  last_batch_by_agent = empty_dict;
  last_seen_by_node = empty_dict;
  last_seen_by_agent = empty_dict;
  seen_message_ids = λ _. false;
  accepted_message_digests = empty_dict;
  accepted_samples_by_node = empty_dict;
  accepted_samples_by_agent = empty_dict;
}

abbrev pub now : DateTime
now = at 1000000000

abbrev pub first : Payload
first = batch_of "b0" 0 none

abbrev pub second : Payload
second = batch_of "b1" 1 (some "b0")

abbrev pub event : Payload → Event
event p = record { now = now; ack_now = now; payload = p }
