-- ===== src/Evaluation/Strategies.antt =====
-- `_session_assignments`, `_stratified_assignments` and `_diagnostic_holdout_assignments` of
-- src/commguard/evaluation/splits.py.
pub mod Strata
use Prim.Native.String.{◌++◌ as append}
use comm_guard.Prelude.{
  ℕ, zero, suc, ◌+◌, ◌-◌, ◌*◌, ◌≤◌, ◌<◌, max, String, ◌≡◌, refl, Bool, true, false, not, ◌&&◌, ◌||◌,
  Option, none, some, List, [], ◌∷◌, ◌++◌, map, ◌==◌, ltb, leb, is_empty, length, keep, every,
  contains, subset, same_set, sorted, distinct, get_or, lookup, keys, if◌then◌else◌, Exception,
  value_error, Result, ok, err, ◌>>=◌, ◌>>◌, raise_if,
}
use comm_guard.Evaluation.Groups.{
  RunGroup, Groups, Assignments, splits, Field, session, label, family, config, field_of, members,
}
use comm_guard.Evaluation.Finalize.{values_in}

-- `random.Random(key).shuffle(items)`, where an integer seed is its digits, and `round(count * fraction)`, with fractions in millionths.
pub record Library : Type 1 where
  pub shuffle : {A : Type 0} → String → List A → List A
  pub round_product : ℕ → ℕ → ℕ
  pub decimal : ℕ → String

-- `assignments[run_id] = …` for each run of a dictionary, by its group.
unfoldable pub assign_by : (RunGroup → String) → Groups → Assignments
assign_by f groups = map (λ e. (e.0, f e.1)) groups

abbrev pub session_split : String → String → RunGroup → String
session_split test validation g =
    if g.experiment_session_id == test
    then "test"
    else if g.experiment_session_id == validation
    then "validation"
    else "train"

-- The test of one candidate: each split has every class and every required family.
unfoldable pub is_valid_candidate : Groups → List String → Assignments → Bool
unfolding values_in
is_valid_candidate groups required a =
    every
      (λ split.
        same_set (values_in groups a label split) (map (λ e. e.1.target_label) groups)
        && subset required (values_in groups a family split))
      splits

-- The pairs of distinct sessions.
unfoldable pub session_pairs : List String → List (String × String)
session_pairs sessions = pairs sessions
  where
    with_test : String → List String → List (String × String)
    with_test t [] = []
    with_test t (v ∷ rest) =
        let others = with_test t rest in if t == v then others else (t, v) ∷ others

    pairs : List String → List (String × String)
    pairs [] = []
    pairs (t ∷ rest) = with_test t sessions ++ pairs rest

-- The loop over the candidates.
unfoldable pub first_valid : Groups → List String → List (String × String) → Option Assignments
unfolding assign_by is_valid_candidate
first_valid groups required [] = none
first_valid groups required ((test, validation) ∷ rest) =
    let a = assign_by (session_split test validation) groups in
    let others = first_valid groups required rest in
    if is_valid_candidate groups required a then some a else others

abbrev pub sessions_of : Groups → List String
sessions_of groups = sorted (distinct (map (λ e. e.1.experiment_session_id) groups))

-- `_session_assignments`
unfoldable pub session_assignments : Library → Groups → ℕ → List String → Option Assignments
unfolding first_valid session_pairs
session_assignments lib groups seed required =
    if ltb (length (sessions_of groups)) 3
    then none
    else first_valid groups required
        (lib.shuffle (lib.decimal seed) (session_pairs (sessions_of groups)))

-- The `while` loop that makes room for a training run: the new test and validation counts.
unfoldable pub make_room : ℕ → ℕ → ℕ → ℕ → Option (ℕ × ℕ)
make_room zero n test validation = none
make_room (suc fuel) n test validation =
    let fewer_validation = make_room fuel n test (validation - 1) in
    let fewer_test = make_room fuel n (test - 1) validation in
    if ltb (test + validation) n
    then some (test, validation)
    else if ltb 1 validation
    then fewer_validation
    else if ltb 1 test
    then fewer_test
    else none

-- The split of the run at a place of the shuffled stratum.
abbrev pub place_split : ℕ → ℕ → ℕ → String
place_split test validation index =
    if ltb index test
    then "test"
    else if ltb index (test + validation)
    then "validation"
    else "train"

unfoldable pub assign_places : ℕ → ℕ → ℕ → List String → Assignments
assign_places test validation index [] = []
assign_places test validation index (run_id ∷ rest) =
    (run_id, place_split test validation index) ∷ assign_places test validation (index + 1) rest

abbrev counts_or_raise : Option (ℕ × ℕ) → Result (ℕ × ℕ)
counts_or_raise none = err (value_error "cannot create three partitions for split stratum")
counts_or_raise (some c) = ok c

-- The key of a run's stratum.
unfoldable pub stratum_of : List String → RunGroup → String
stratum_of required g =
    if contains required g.workload_family
    then append "family:" g.workload_family
    else append "class:" g.target_label

-- The body of the loop over the strata: `n` runs at least three.
unfoldable pub assign_stratum : Library → ℕ → ℕ → ℕ → String → List String → Result Assignments
unfolding make_room assign_places
assign_stratum lib seed test_fraction validation_fraction stratum runs = do
  let shuffled = lib.shuffle (append (lib.decimal seed) (append ":" stratum)) runs
  let n = length shuffled
  raise_if (ltb n 3) (value_error "at least three runs are required for train/validation/test")
  let test = max 1 (lib.round_product n test_fraction)
  let validation = max 1 (lib.round_product n validation_fraction)
  (t, v) ← counts_or_raise (make_room (test + validation) n test validation)
  ok (assign_places t v 0 shuffled)

abbrev runs_of_stratum : List String → Groups → String → List String
runs_of_stratum required groups stratum =
    map (λ e. e.0) (keep (λ e. stratum_of required e.1 == stratum) groups)

unfoldable pub assign_strata :
    Library → ℕ → ℕ → ℕ → List String → Groups → List String → Result Assignments
unfolding assign_stratum stratum_of
assign_strata lib seed tf vf required groups [] = ok []
assign_strata lib seed tf vf required groups (stratum ∷ rest) = do
  first ← assign_stratum lib seed tf vf stratum (runs_of_stratum required groups stratum)
  others ← assign_strata lib seed tf vf required groups rest
  ok (first ++ others)

-- `_stratified_assignments`
unfoldable pub stratified_assignments :
    Library → Groups → ℕ → ℕ → ℕ → List String → Result Assignments
unfolding assign_strata
stratified_assignments lib groups seed tf vf required =
    assign_strata lib seed tf vf required groups
      (sorted (distinct (map (λ e. stratum_of required e.1) groups)))

-- One class of the runs that a diagnostic holdout leaves: the first, of two or more, validates.
unfoldable pub assign_label : Library → String → List String → Assignments
unfolding assign_places
assign_label lib key runs =
    let shuffled = lib.shuffle key runs in
    let validation = if leb 2 (length shuffled) then 1 else 0 in
    assign_places 0 validation 0 shuffled

unfoldable pub assign_labels : Library → String → Groups → List String → Assignments
unfolding assign_label
assign_labels lib prefix remaining [] = []
assign_labels lib prefix remaining (name ∷ rest) =
    assign_label lib (append prefix name)
      (map (λ e. e.0) (keep (λ e. e.1.target_label == name) remaining))
    ++ assign_labels lib prefix remaining rest

abbrev field_name : Field → String
field_name Field.run = "run_id"
field_name session = "experiment_session_id"
field_name label = "target_label"
field_name family = "workload_family"
field_name config = "workload_config_id"

-- `_diagnostic_holdout_assignments`
unfoldable pub diagnostic_assignments : Library → Groups → Field → String → ℕ → Result Assignments
unfolding assign_labels field_of
diagnostic_assignments lib groups f value seed = do
  let heldout = keep (λ e. field_of f e.1 == value) groups
  raise_if (is_empty heldout) (value_error "holdout value is not present")
  let remaining = keep (λ e. not (field_of f e.1 == value)) groups
  raise_if (is_empty remaining) (value_error "holdout consumed every run")
  let prefix =
      append (lib.decimal seed) (append ":" (append (field_name f) (append ":" (append value ":"))))
  ok (
      map (λ e. (e.0, "test")) heldout
      ++ assign_labels lib prefix remaining
          (sorted (distinct (map (λ e. e.1.target_label) remaining))))
