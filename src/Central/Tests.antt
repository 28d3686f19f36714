-- ===== src/Central/Tests.antt =====
-- Tests of the central prototype, and the theorems at concrete inputs.
use comm_guard.Prelude.{
  ◌≡◌, ◌≢◌, refl, List, [], ◌∷◌, ◌++◌, Result, ok, err, some, none, true, false, All, ℤ, pos,
  lookup, put, contains, keep, same_set, some_of, every, get_or, eq_iff, sorted, distinct, ◌≤◌, ◌<◌,
  is_negative, to_nat, distance,
}
use comm_guard.Central.Flow.{Flow}
use comm_guard.Central.Json.{get, field_names}
use comm_guard.Central.Messages.{
  Payload, TelemetryBatch, Heartbeat, batch_from_dict, heartbeat_from_dict, batch_to_dict,
  heartbeat_to_dict, batch_payload, heartbeat_payload,
}
use comm_guard.Central.Messages.Roundtrip.{batch_from_dict-to_dict}
use comm_guard.Central.Security.{validate_payload_size, verify_message, reject_prohibited_fields}
use comm_guard.Central.Samples.{validate_telemetry_samples, validate_sample, to_int}
use comm_guard.Central.Server.{Reason, Ack, Service, Evidence}
use comm_guard.Central.Server.Replies.{make_ack, Message, batch, digest_of}
use comm_guard.Central.Server.Ingest.{
  ingest, admit, authenticate, parse_message, check_order, check_time, store,
}
use comm_guard.Central.Server.Ingest.Accepted.{IsAdmissible, ingest-IsAdmissible}
use comm_guard.Central.Server.Ingest.Branches.{ingest_unchanged}
use comm_guard.Central.Server.Health.{health_of}
use comm_guard.Central.Server.Trace.{run, log, Event, numbers_of, IsConsecutive, log-IsConsecutive}
use comm_guard.Central.Server.Trace.Batches.{
  IsChained, batches_of, log-IsChained, evidence_log, run-evidence,
}
use comm_guard.Central.Server.Trace.Once.{ids}
use comm_guard.Central.Server.Trace.Replay.{replay_reply, ingest_again, ingest_conflict}
use comm_guard.Central.Server.Window.{Aggregation, aggregate_window, select, values_of}
use comm_guard.Central.Server.Window.Complete.{IsCovered, aggregate_window-complete}
use comm_guard.Central.Detector.{
  Detector, Decision, decide, one, decide-definite, score_outside_margin,
}
use comm_guard.Central.Examples.{
  toy, fresh, now, at, first, second, event, batch_of, registration, sample,
}

abbrev reason : Result Ack → Reason
reason (ok a) = a.reason_code
reason (err e) = Reason.invalid_message

evaluation : Unit {0}
unfolding ingest make_ack admit authenticate parse_message check_order check_time store digest_of
    validate_payload_size verify_message batch_from_dict heartbeat_from_dict
    validate_telemetry_samples validate_sample reject_prohibited_fields to_int get field_names
    lookup put contains keep same_set some_of every run log
evaluation = tt

abbrev after_first : Service
after_first = (ingest toy fresh now now first).1

abbrev forged : Payload
forged = record first { signature = some "guess" }

-- The reasons of some calls, in the order of the checks.
reasons :
    (reason (ingest toy fresh now now first).0 ≡ Reason.accepted)
    × (reason (ingest toy after_first now now second).0 ≡ Reason.accepted)
    × (reason (ingest toy after_first now now first).0 ≡ Reason.already_accepted)
    × (reason (ingest toy fresh now now forged).0 ≡ Reason.invalid_signature)
    × (reason (ingest toy after_first now now (batch_of "b2" 2 (some "b0"))).0
        ≡ Reason.sequence_gap)
    × (reason (ingest toy after_first now now (batch_of "b1" 1 none)).0
        ≡ Reason.batch_chain_mismatch)
    × (reason (ingest toy after_first now now (batch_of "b1" 0 none)).0 ≡ Reason.stale_sequence)
    × (reason (ingest toy fresh (at 0) now first).0 ≡ Reason.clock_skew)
unfolding evaluation
reasons = (refl, refl, refl, refl, refl, refl, refl, refl)

forged-reason :
    (a : Ack) → (ingest toy fresh now now forged).0 ≡ ok a → a.reason_code ≢ Reason.accepted
unfolding evaluation
forged-reason a h e = cc (h, e)

ingest_unchanged_example : (ingest toy fresh now now forged).1 ≡ fresh
ingest_unchanged_example = ingest_unchanged toy fresh now now forged forged-reason

abbrev first_ack : Ack
first_ack = record {
  message_id = "b0";
  is_accepted = true;
  reason_code = Reason.accepted;
  detail = "message accepted";
  server_time_utc = "now";
  last_accepted_sequence = some (pos 0);
}

first_accepted : (ingest toy fresh now now first).0 ≡ ok first_ack
unfolding evaluation
first_accepted = refl

ingest-IsAdmissible_example :
    (m : Message) × IsAdmissible toy fresh now first m
    × ((ingest toy fresh now now first).1 ≡ store toy fresh now first m)
ingest-IsAdmissible_example =
    ingest-IsAdmissible toy fresh now first now first_ack first_accepted refl

abbrev events : List Event
events = event first ∷ event forged ∷ event first ∷ event second ∷ []

-- Of the four calls, the first and the last are accepted.
log-events : ids toy (log toy fresh events) ≡ "b0" ∷ "b1" ∷ []
unfolding evaluation
log-events = refl

log-IsConsecutive_example : IsConsecutive none (numbers_of toy "agent-0" (log toy fresh events))
log-IsConsecutive_example = log-IsConsecutive toy "agent-0" fresh events

log-IsChained_example : IsChained none (batches_of toy "agent-0" (log toy fresh events))
log-IsChained_example = log-IsChained toy "agent-0" fresh events

run-evidence_example :
    get_or [] ((run toy fresh events).accepted_samples_by_agent "agent-0")
    ≡ [] ++ evidence_log (batches_of toy "agent-0" (log toy fresh events))
run-evidence_example = run-evidence toy "agent-0" fresh events

ingest_again_example : ingest toy (run toy after_first (event second ∷ [])) (at 0) now first ≡ (
  ok (make_ack toy (run toy after_first (event second ∷ [])) now "b0" (replay_reply first true)),
  run toy after_first (event second ∷ []),
)
ingest_again_example =
    ingest_again toy fresh now now first first_ack first_accepted refl (event second ∷ []) (at 0)
      now

-- The first batch's identifier with another creation time.
abbrev reused : Payload
reused = record first { created_at_utc = some "late"; signature = some "keyb0-late-" }

abbrev reused_batch : TelemetryBatch
reused_batch = record {
  batch_id = "b0";
  agent_id = "agent-0";
  node_id = "node";
  experiment_session_id = "session";
  sequence = pos 0;
  created_at_utc = "late";
  monotonic_start_ns = pos 1;
  monotonic_end_ns = pos 2;
  samples = sample ∷ [];
  previous_batch_id = none;
  signature = some "keyb0-late-";
  protocol_version = "1.0";
  message_type = "telemetry_batch";
}

reused_authentic : authenticate toy fresh reused ≡ Flow.go registration
unfolding evaluation
reused_authentic = refl

reused_parsed : parse_message toy fresh reused ≡ Flow.go (batch reused_batch)
unfolding evaluation
reused_parsed = refl

digests_differ : digest_of toy first ≢ digest_of toy reused
unfolding evaluation
digests_differ e = cc ((eq_iff (digest_of toy first) (digest_of toy reused)).1 e)

ingest_conflict_example : ingest toy (run toy after_first (event second ∷ [])) now now reused ≡ (
  ok (make_ack toy (run toy after_first (event second ∷ [])) now "b0" (replay_reply reused false)),
  run toy after_first (event second ∷ []),
)
ingest_conflict_example =
    ingest_conflict toy fresh now now first first_ack first_accepted refl (event second ∷ []) now
      now reused registration (batch reused_batch) refl reused_authentic reused_parsed
      digests_differ

-- The window from "now" to "late" holds the sample of the first batch.
abbrev window : Result Aggregation
window = aggregate_window toy after_first "w" now now "now" "late"

abbrev aggregation_of : Result Aggregation → Aggregation → Aggregation
aggregation_of (ok a) b = a
aggregation_of (err e) b = b

abbrev no_aggregation : Aggregation
no_aggregation = record {
  window_id = "";
  start = now;
  stop = now;
  nodes = [];
  agents = [];
  missing_or_stale_nodes = [];
  missing_or_stale_agents = [];
  complete = false;
  evidence_batch_ids = [];
}

abbrev aggregation : Aggregation
aggregation = aggregation_of window no_aggregation

window-ok : window ≡ ok aggregation
unfolding evaluation aggregate_window health_of sorted distinct values_of
window-ok = refl

window-complete : aggregation.complete ≡ true
unfolding evaluation aggregate_window health_of sorted distinct values_of
window-complete = refl

window-start : (aggregation.start ≡ now) × (aggregation.evidence_batch_ids ≡ "b0" ∷ [])
unfolding evaluation aggregate_window health_of sorted distinct values_of
window-start = (refl, refl)

aggregate_window-complete_example :
    (toy.from_iso "now" ≡ some aggregation.start)
    × (toy.from_iso "late" ≡ some aggregation.stop)
    × All
        (λ n.
          IsCovered toy after_first now aggregation.start aggregation.stop
            (after_first.last_seen_by_node n)
            (get_or [] (after_first.accepted_samples_by_node n)))
        after_first.expected_nodes
    × All
        (λ a.
          IsCovered toy after_first now aggregation.start aggregation.stop
            (after_first.last_seen_by_agent a)
            (get_or [] (after_first.accepted_samples_by_agent a)))
        after_first.expected_agents
aggregate_window-complete_example =
    aggregate_window-complete toy after_first "w" now now "now" "late" aggregation window-ok
      window-complete

abbrev stored : List Evidence
stored = ("b0", sample) ∷ []

select-stored : select toy now (at 2000000000) stored ≡ ok stored
unfolding evaluation select
select-stored = refl

abbrev detector : Detector
detector = record {
  scorer = λ a. ok (pos 900000000);
  threshold = pos 500000000;
  abstention_margin = pos 100000000;
}

abbrev complete_window : Aggregation
complete_window = record no_aggregation { complete = true; window_id = "w" }

abbrev definite : Decision
definite = record {
  score = some (pos 900000000);
  threshold = pos 500000000;
  abstained = false;
  reason = score_outside_margin;
  evidence_window_ids = "w" ∷ [];
}

decide-complete_window : decide detector complete_window ≡ ok definite
unfolding decide
decide-complete_window = refl

decide-definite_example :
    (score : ℤ) × (complete_window.complete ≡ true)
    × (detector.scorer complete_window ≡ ok score)
    × (definite.score ≡ some score)
    × (to_nat score ≤ one)
    × (is_negative score ≡ false)
    × (to_nat detector.abstention_margin < distance (to_nat score) (to_nat detector.threshold))
decide-definite_example =
    decide-definite detector complete_window definite decide-complete_window refl

batch_to_dict-reused : batch_to_dict toy reused_batch ≡ ok (batch_payload reused_batch)
unfolding batch_to_dict
batch_to_dict-reused = refl

batch_from_dict-to_dict_example : batch_from_dict toy (batch_payload reused_batch) ≡ ok reused_batch
batch_from_dict-to_dict_example =
    batch_from_dict-to_dict toy reused_batch (batch_payload reused_batch) batch_to_dict-reused

abbrev beat : Heartbeat
beat = record {
  heartbeat_id = "h1";
  agent_id = "agent-0";
  node_id = "node";
  experiment_session_id = "session";
  sequence = pos 1;
  created_at_utc = "now";
  last_batch_id = some "b0";
  signature = none;
  protocol_version = "1.0";
  message_type = "heartbeat";
}

heartbeat_to_dict-beat : heartbeat_to_dict toy beat ≡ ok (heartbeat_payload beat)
unfolding heartbeat_to_dict
heartbeat_to_dict-beat = refl
