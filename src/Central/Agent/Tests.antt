-- ===== src/Central/Agent/Tests.antt =====
-- Tests of the agent and of the offline transport.
use comm_guard.Prelude.{
  ℕ, String, ◌≡◌, refl, Bool, true, false, none, some, [], ◌∷◌, pos, ◌⊎◌, Exception, value_error,
  Result, ok, err, empty_dict, put, contains, lookup, keep, same_set, some_of, every,
}
use comm_guard.Central.Json.{Value, Fields, get, field_names}
use comm_guard.Central.Messages.{
  Payload, TelemetryBatch, batch_payload, batch_to_dict, heartbeat_to_dict, validate_batch,
  validate_heartbeat, batch_from_dict, heartbeat_from_dict,
}
use comm_guard.Central.Security.{
  sign_message, verify_message, canonical_bytes, validate_payload_size, reject_prohibited_fields,
}
use comm_guard.Central.Samples.{to_int, validate_sample, validate_telemetry_samples}
use comm_guard.Central.Server.{Reason, Ack}
use comm_guard.Central.Server.Replies.{make_ack, digest_of}
use comm_guard.Central.Server.Ingest.{
  ingest, admit, authenticate, parse_message, check_order, check_time, store,
}
use comm_guard.Central.Protocol.{protocol_sample, protocol_samples}
use comm_guard.Central.Agent.{
  Agent, Reading, previous_of, sign_batch, sign_heartbeat, collected_message, collect_once, flush,
  batch_for,
}
use comm_guard.Central.Agent.Drain.{IsDrained, flush-IsDrained}
use comm_guard.Central.Agent.Queue.{IsQueued, collect_once-IsQueued, flush-IsQueued}
use comm_guard.Central.Transport.{Transport, safe_message_id, save_request, send_offline}
use comm_guard.Central.Transport.Saved.{IsExtension, send_offline-IsExtension, send_offline-saved}
use comm_guard.Central.Examples.{toy, fresh, now, sample, first, secret}

evaluation : Unit {0}
unfolding protocol_samples protocol_sample previous_of sign_batch sign_heartbeat collected_message
    collect_once batch_to_dict heartbeat_to_dict sign_message canonical_bytes validate_batch
    validate_heartbeat to_int validate_sample validate_telemetry_samples reject_prohibited_fields
    get field_names contains lookup keep same_set some_of every
evaluation = tt

abbrev no_dict : Value → Result Fields
no_dict v = err (value_error "dict")

abbrev worker : Agent
worker = record {
  agent_id = "agent-0";
  node_id = "node";
  experiment_session_id = "session";
  hmac_secret = secret;
  configuration_hash = "c";
  next_sequence = 0;
  last_batch_id = none;
  pending = [];
}

abbrev one_sample : Reading
one_sample = record {
  started_ns = pos 1;
  ended_ns = pos 2;
  collected = ok (sample ∷ []);
  sample_uuids = λ n. "s";
  batch_uuid = "0";
  created = now;
}

abbrev unsigned : TelemetryBatch
unsigned = batch_for toy worker one_sample (sample ∷ []) none

abbrev signed : Payload
signed = batch_payload (record unsigned { signature = some "keybatch-0-now-" })

abbrev collected_worker : Agent
collected_worker = record worker { next_sequence = 1; pending = signed ∷ [] }

collect_once-worker : collect_once toy no_dict worker one_sample ≡ ok ("batch-0", collected_worker)
unfolding evaluation
collect_once-worker = refl

collect_once-IsQueued_example : IsQueued collected_worker
collect_once-IsQueued_example =
    collect_once-IsQueued toy no_dict worker collected_worker one_sample "batch-0"
      collect_once-worker (0, refl)

abbrev ack : Ack
ack = record {
  message_id = "batch-0";
  is_accepted = true;
  reason_code = Reason.accepted;
  detail = "message accepted";
  server_time_utc = "now";
  last_accepted_sequence = some (pos 0);
}

-- A transport that accepts every message.
abbrev accepting : ℕ → Payload → Result Ack × ℕ
accepting n m = (ok ack, n)

flush-IsQueued_example : IsQueued (flush accepting collected_worker 0).agent
flush-IsQueued_example =
    flush-IsQueued accepting collected_worker 0 (0, (refl, refl, ("batch-0", refl, refl)))

sign_batch-unsigned : sign_batch toy secret unsigned ≡ ok signed
unfolding evaluation
sign_batch-unsigned = refl

abbrev is_safe : String → Bool
is_safe s = true

-- A transport that saved a refusal of the first message.
abbrev refused : Ack
refused = record ack { is_accepted = false; reason_code = Reason.clock_skew }

abbrev transport : Transport
transport = record {
  requests = put empty_dict "b0" first;
  acknowledgments = put empty_dict "b0" refused;
  service = fresh;
}

send_offline-IsExtension_example :
    IsExtension transport (send_offline toy is_safe now now transport first).1
send_offline-IsExtension_example = send_offline-IsExtension toy is_safe now now transport first

first-identifier : safe_message_id is_safe first ≡ ok "b0"
unfolding safe_message_id
first-identifier = refl

first-acknowledgment : transport.acknowledgments "b0" ≡ some refused
unfolding put
first-acknowledgment = refl

send_offline-saved_example :
    ((send_offline toy is_safe now now transport first).0 ≡ ok refused)
    ⊎ ((e : Exception) × ((send_offline toy is_safe now now transport first).0 ≡ err e))
send_offline-saved_example =
    send_offline-saved toy is_safe now now transport first "b0" refused first-identifier
      first-acknowledgment

-- The service takes the message now, and the saved refusal is returned.
send_offline-refused :
    ((send_offline toy is_safe now now transport first).0 ≡ ok refused)
    × ((send_offline toy is_safe now now transport first).1.service.last_sequence_by_agent "agent-0"
        ≡ some (pos 0))
unfolding evaluation send_offline safe_message_id save_request ingest make_ack admit authenticate
    parse_message check_order check_time store digest_of validate_payload_size verify_message
    batch_from_dict heartbeat_from_dict put
send_offline-refused = (refl, refl)

flush-IsDrained_example :
    IsDrained accepting collected_worker collected_worker.pending
      (flush accepting collected_worker 0)
flush-IsDrained_example =
    flush-IsDrained accepting collected_worker 0 (0, (refl, refl, ("batch-0", refl, refl)))
      ((ack, refl, refl), tt)
