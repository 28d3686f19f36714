-- ===== src/Runs/Tests.antt =====
-- The evidence of a smoke run of two ranks, and what is recorded of it.
use comm_guard.Prelude.{
  ◌≡◌, refl, String, true, false, none, some, List, [], ◌∷◌, pos, contains, keep, ok,
}
use comm_guard.Central.Json.{Value, int, text, obj, Fields, end, field, get, field_names}
use comm_guard.Schemas.Values.{equals_int, same_value}
use comm_guard.Runs.Launcher.{
  Deviates, Participation, names_of, first_event, required_events, rank_report, flagged,
  compare_startups, validate_participation,
}
use comm_guard.Runs.Participated.{IsParticipation, validate_participation-IsParticipation}
use comm_guard.Runs.Outcome.{launch_result, failure_category, recorded_failure, exit_status_of}
use comm_guard.Runs.Recorded.{IsRecorded, launch_result-IsRecorded}

abbrev exact : Deviates
exact duration start_ns end_ns = ok false

abbrev startup : Value → Value → Fields
startup n uuid = field "rank" n (
    field "local_rank" n (
      field "gpu_index" n (
        field "gpu_uuid" uuid
          (field "world_size" (int (pos 2)) (field "backend" (text "nccl") end)))))

abbrev event : String → Fields → Fields
event name details = field "event" (text name) (field "details" (obj details) end)

abbrev events : Value → Value → List Fields
events n uuid =
    event "startup" (startup n uuid)
    ∷ event "cuda_operation_complete" end
    ∷ event "heartbeat" end
    ∷ event "completion" end
    ∷ []

abbrev events_0 : List Fields
events_0 = events (int (pos 0)) (text "GPU-a")

abbrev events_1 : List Fields
events_1 = events (int (pos 1)) (text "GPU-b")

abbrev valid_evidence : Participation
valid_evidence = record { valid = true; problems = []; rank_exit_codes = ("0", 0) ∷ ("1", 0) ∷ [] }

evidence_accepted : validate_participation exact events_0 events_1 "smoke" none ≡ ok valid_evidence
unfolding validate_participation required_events rank_report names_of first_event compare_startups
    flagged keep contains get field_names equals_int same_value
evidence_accepted = refl

validate_participation-IsParticipation_example :
    (a b : Fields) × IsParticipation (required_events "smoke" none) events_0 events_1 a b
validate_participation-IsParticipation_example =
    validate_participation-IsParticipation exact events_0 events_1 "smoke" none {p = valid_evidence}
      evidence_accepted refl

-- Both ranks took part, but the output is that of a run that ended late.
launch_result-IsRecorded_example :
    IsRecorded (λ n. "1") (λ marker. false) (launch_result (pos 1) true valid_evidence) none
launch_result-IsRecorded_example =
    launch_result-IsRecorded exact events_0 events_1 "smoke" none (λ n. "1") (λ marker. false)
      (pos 1) true none {p = valid_evidence} evidence_accepted

-- A completed run is given a failure category when its output names NCCL.
completed_with_category :
    (exit_status_of (launch_result (pos 0) false valid_evidence) none ≡ "completed")
    × (recorded_failure
          (λ n. "1")
          (contains ("nccl" ∷ []))
          (launch_result (pos 0) false valid_evidence)
          none
        ≡ some ("process_group_or_nccl_failure", "NCCL or process-group failure"))
unfolding exit_status_of recorded_failure failure_category launch_result contains
completed_with_category = (refl, refl)
