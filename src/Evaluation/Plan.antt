-- ===== src/Evaluation/Plan.antt =====
-- `make_split_plan` and `grouped_split` of src/commguard/evaluation/splits.py.
pub mod Primary
use comm_guard.Prelude.{
  ℕ, ◌+◌, String, Bool, true, false, not, ◌&&◌, ◌||◌, Option, none, some, List, [], ltb,
  value_error, Result, ok, err, ◌>>=◌, ◌>>◌, raise_if,
}
use comm_guard.Evaluation.Groups.{Row, Groups, Assignments, Field, family, config, run_groups}
use comm_guard.Evaluation.Finalize.{SplitPlan, finalize}
use comm_guard.Evaluation.Strategies.{
  Library, session_assignments, stratified_assignments, diagnostic_assignments,
}

-- The supported values of `mode`; any other text is `unknown`.
pub data Mode : Type 0 where
  auto session_holdout stratified_whole_run family_holdout configuration_holdout : Mode
  unknown : String → Mode

abbrev mode_name : Mode → String
mode_name auto = "auto"
mode_name session_holdout = "session_holdout"
mode_name stratified_whole_run = "stratified_whole_run"
mode_name family_holdout = "family_holdout"
mode_name configuration_holdout = "configuration_holdout"
mode_name (unknown s) = s

-- A fraction of one, in millionths.
abbrev pub one : ℕ
one = 1000000

-- `0 < x < 1`
abbrev pub in_open_unit : ℕ → Bool
in_open_unit x = ltb 0 x && ltb x one

pub record Options : Type 0 where
  pub mode : Mode
  pub seed : ℕ
  pub test_fraction : ℕ
  pub validation_fraction : ℕ
  pub required_families : List String
  pub holdout_value : Option String

module _ (lib : Library) (groups : Groups) (o : Options) where
  abbrev pub by_session : Option Assignments → Result SplitPlan → Result SplitPlan
  by_session none otherwise = otherwise
  by_session (some a) otherwise =
      finalize groups a false o.required_families "independent_session_holdout" (mode_name o.mode)
        o.seed

  abbrev pub by_strata : Result SplitPlan
  by_strata = do
    a ←
        stratified_assignments lib groups o.seed o.test_fraction o.validation_fraction
          o.required_families
    finalize groups a false o.required_families "deterministic_class_stratified_whole_run"
        (mode_name o.mode) o.seed

  abbrev pub by_holdout : Field → Option String → Result SplitPlan
  by_holdout f none = err (value_error "split mode requires holdout_value")
  by_holdout f (some value) = do
    a ← diagnostic_assignments lib groups f value o.seed
    finalize groups a true o.required_families (mode_name o.mode) (mode_name o.mode) o.seed

  -- The cascade over the modes.
  unfoldable pub plan_for : Mode → Result SplitPlan
  plan_for auto = by_session (session_assignments lib groups o.seed o.required_families) by_strata
  plan_for session_holdout =
      by_session (session_assignments lib groups o.seed o.required_families)
        (err (value_error "no valid independent-session holdout"))
  plan_for stratified_whole_run = by_strata
  plan_for family_holdout = by_holdout family o.holdout_value
  plan_for configuration_holdout = by_holdout config o.holdout_value
  plan_for (unknown s) = err (value_error "unknown split mode")

-- `make_split_plan`
unfoldable pub make_split_plan : Library → List Row → Options → Result SplitPlan
unfolding plan_for
make_split_plan lib rows o = do
  raise_if (not (in_open_unit o.test_fraction) || not (in_open_unit o.validation_fraction))
      (value_error "primary split fractions must satisfy 0 < test, validation < 1")
  raise_if (not (ltb (o.test_fraction + o.validation_fraction) one))
      (value_error "test and validation fractions must sum to less than 1")
  groups ← run_groups rows
  plan_for lib groups o o.mode

-- `grouped_split`
unfoldable pub grouped_split : Library → List Row → ℕ → ℕ → ℕ → Result Assignments
unfolding make_split_plan
grouped_split lib rows seed test_fraction validation_fraction = do
  plan ← make_split_plan lib rows (record {
    mode = auto;
    seed = seed;
    test_fraction = test_fraction;
    validation_fraction = validation_fraction;
    required_families = [];
    holdout_value = none;
  })
  ok plan.assignments
