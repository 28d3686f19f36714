-- ===== src/Runs/Launcher.antt =====
-- `validate_participation` of src/commguard/distributed/launcher.py, over the events that the ranks wrote.
use Prim.Native.String.{◌++◌ as append}
use comm_guard.Prelude.{
  ℕ, String, Bool, true, false, not, ◌&&◌, ◌||◌, Option, none, some, List, [], ◌∷◌, ◌++◌, ◌==◌, pos,
  is_empty, keep, contains, if◌then◌else◌, type_error, key_error, Result, ok, err, ◌>>=◌, ◌>>◌,
  raise_if,
}
use comm_guard.Central.Json.{Value, obj, arr, text, Fields, end, get, get_default, field_names}
use comm_guard.Schemas.Values.{
  as_mapping, is_int, is_number, equals_int, equals_text, same_value, at_least, at_least_zero,
}

-- `abs(float(duration) - ((end_ns - start_ns) / 1e9)) > 1e-6`, which computes with floats.
abbrev pub Deviates : Type 0
Deviates = (duration start_ns end_ns : Value) → Result Bool

-- `event.get("event")` as an element of a set: another value than a text is the name of no event.
abbrev pub event_name : Value → Result (Option String)
event_name (text s) = ok (some s)
event_name (arr xs) = err (type_error "unhashable type: 'list'")
event_name (obj fs) = err (type_error "unhashable type: 'dict'")
event_name _ = ok none

abbrev pub add_name : Option String → List String → List String
add_name none names = names
add_name (some s) names = s ∷ names

-- `{event.get("event") for event in events}`
unfoldable pub names_of : List Fields → Result (List String)
names_of [] = ok []
names_of (event ∷ events) = do
  name ← event_name (get event "event")
  names ← names_of events
  ok (add_name name names)

-- `next((event for event in events if event.get("event") == name), None)`
unfoldable pub first_event : String → List Fields → Option Fields
first_event name [] = none
first_event name (event ∷ events) =
    if equals_text name (get event "event") then some event else first_event name events

abbrev pub when : Bool → List String → List String
when true names = names
when false names = []

-- `required`, for a mode and a designation
unfoldable pub required_events : String → Option String → List String
required_events mode designation =
    ("startup" ∷ "cuda_operation_complete" ∷ "heartbeat" ∷ "completion" ∷ [])
    ++ (when (not (mode == "smoke")) ("measurement_interval" ∷ [])
        ++ (when (mode == "ddp_train") (
              "model_ready" ∷ "forward_complete" ∷ "backward_complete" ∷ "gradient_sync_complete"
              ∷ "optimizer_step_complete" ∷ "memory_peak" ∷ [])
            ++ (when (mode == "calibration") ("collective_complete" ∷ [])
                ++ (when (mode == "idle")
                      ("measurement_start" ∷ "measurement_end" ∷ "process_group_destroyed" ∷ [])
                    ++ (when (mode == "sparse_sync_training") (
                          "model_ready" ∷ "forward_complete" ∷ "backward_complete"
                          ∷ "parameter_average_complete" ∷ "memory_peak" ∷ [])
                        ++ (when (mode == "synthetic_communication_decoy")
                              ("decoy_burst_complete" ∷ "memory_peak" ∷ [])
                            ++ when
                                (elim designation [ some d ↦ d == "adversarial" | none ↦ false ])
                                ("strategy_summary" ∷ [])))))))

-- Whether the details of a measured interval are refused; `or` reads the next test only after a false one.
infixr 4 ◌or◌
abbrev ◌or◌ : Result Bool → Result Bool → Result Bool
a or b = a >>= λ x. elim x [ true ↦ ok true | false ↦ b ]

abbrev negated : Result Bool → Result Bool
negated a = a >>= λ x. ok (not x)

unfoldable pub is_bad_interval : Deviates → Fields → Result Bool
is_bad_interval deviates details =
    let start_ns = get details "measurement_start_monotonic_ns" in
    let end_ns = get details "measurement_end_monotonic_ns" in
    let duration = get details "measured_duration_seconds" in
    ok (not (is_int start_ns))
    or (ok (not (is_int end_ns))
        or (negated (at_least end_ns start_ns)
            or (ok (not (is_number duration))
                or (negated (at_least_zero duration) or deviates duration start_ns end_ns))))

abbrev pub interval_problems : Deviates → String → Option Fields → Result (List String)
interval_problems deviates rank none = ok []
interval_problems deviates rank (some event) = do
  details ← as_mapping (get_default event "details" (obj end))
  bad ← is_bad_interval deviates details
  ok (when bad (append rank "has invalid measurement interval details" ∷ []))

-- `startup["details"]`, with the problem of a rank without a startup event
abbrev pub startup_of : String → Option Fields → Result (List Value × List String)
startup_of rank none = ok ([], append rank "has no startup identity" ∷ [])
startup_of rank (some event) =
    raise_if (not (contains (field_names event) "details")) (key_error "details")
    >> ok (get event "details" ∷ [], [])

pub record RankReport : Type 0 where
  pub problems : List String
  pub startups : List Value
  pub exit_code : ℕ

-- The body of the loop over the ranks.
unfoldable pub rank_report : Deviates → List String → String → List Fields → Result RankReport
rank_report deviates required rank events = do
  names ← names_of events
  let missing = keep (λ name. not (contains names name)) required
  started ← startup_of rank (first_event "startup" events)
  measured ← interval_problems deviates rank (first_event "measurement_interval" events)
  let failed = contains names "failure" || not (contains names "completion")
  ok (record {
    problems =
        when (not (is_empty missing)) (append rank "missing events" ∷ [])
        ++ (started.1 ++ measured);
    startups = started.0;
    exit_code = if failed then 1 else 0;
  })

abbrev is_unhashable : Value → Bool
is_unhashable (arr xs) = true
is_unhashable (obj fs) = true
is_unhashable _ = false

-- `item.get(key)` of the two startups, as a set
abbrev pub values_at : String → Fields → Fields → Result (Value × Value)
values_at key a b = do
  raise_if (is_unhashable (get a key) || is_unhashable (get b key)) (type_error "unhashable type")
  ok (get a key, get b key)

-- `{a, b} != {0, 1}`
abbrev pub are_both_ranks : Value × Value → Bool
are_both_ranks (a, b) =
    equals_int (pos 0) a && equals_int (pos 1) b || (equals_int (pos 1) a && equals_int (pos 0) b)

-- `if test: problems.append(text)`, for each of some tests
unfoldable pub flagged : List (Bool × String) → List String
flagged [] = []
flagged ((test, problem) ∷ rest) = when test (problem ∷ []) ++ flagged rest

-- The tests of two startups, with their four sets.
abbrev pub identity_tests :
    Fields → Fields → (ranks locals gpus uuids : Value × Value) → List (Bool × String)
identity_tests a b ranks locals gpus uuids =
    (not (are_both_ranks ranks), "rank identities are not exactly {0, 1}")
    ∷ (not (are_both_ranks locals), "local ranks are not exactly {0, 1}")
    ∷ (not (are_both_ranks gpus), "GPU bindings are not exactly {0, 1}")
    ∷ (same_value uuids.0 uuids.1, "rank GPU UUIDs are not distinct")
    ∷ (
      not (equals_int (pos 2) (get a "world_size"))
          || not (equals_int (pos 2) (get b "world_size")),
      "startup evidence does not report world size 2",
    )
    ∷ (
      not (equals_text "nccl" (get a "backend")) || not (equals_text "nccl" (get b "backend")),
      "non-NCCL backend detected",
    )
    ∷ []

-- The checks of two startups.
unfoldable pub compare_startups : Fields → Fields → Result (List String)
compare_startups a b = do
  ranks ← values_at "rank" a b
  local_ranks ← values_at "local_rank" a b
  gpus ← values_at "gpu_index" a b
  uuids ← values_at "gpu_uuid" a b
  ok (flagged (identity_tests a b ranks local_ranks gpus uuids))

-- `if len(startups) == 2`
abbrev pub startup_problems : List Value → Result (List String)
startup_problems (a ∷ b ∷ []) = do
  first ← as_mapping a
  second ← as_mapping b
  compare_startups first second
startup_problems _ = ok []

pub record Participation : Type 0 where
  pub valid : Bool
  pub problems : List String
  pub rank_exit_codes : List (String × ℕ)

-- `validate_participation`, with the events of the two ranks
unfoldable pub validate_participation :
    Deviates
    → (events_0 events_1 : List Fields) → (mode : String) → (designation : Option String)
    → Result Participation
validate_participation deviates events_0 events_1 mode designation = do
  let required = required_events mode designation
  first ← rank_report deviates required "rank 0 " events_0
  second ← rank_report deviates required "rank 1 " events_1
  identity ← startup_problems (first.startups ++ second.startups)
  let problems = first.problems ++ (second.problems ++ identity)
  ok (record {
    valid = is_empty problems;
    problems = problems;
    rank_exit_codes = ("0", first.exit_code) ∷ ("1", second.exit_code) ∷ [];
  })
