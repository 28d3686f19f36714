-- ===== src/Evaluation/Finalize.antt =====
-- `SplitPlan` and `_finalize` of src/commguard/evaluation/splits.py.
pub mod Sound
use comm_guard.Prelude.{
  ℕ, zero, suc, ◌≤◌, ◌<◌, String, ◌≡◌, refl, Bool, true, false, not, ◌&&◌, ◌||◌, Option, none, some,
  List, [], ◌∷◌, map, arith, ◌==◌, eq_iff, ltb, is_empty, length, keep, every, some_of, contains,
  subset, same_set, sorted, distinct, get_or, lookup, keys, if◌then◌else◌, Exception, value_error,
  Result, ok, err, ◌>>=◌, ◌>>◌, raise_if, raise_if-then,
}
use comm_guard.Evaluation.Groups.{
  RunGroup, Groups, Assignments, splits, Field, session, label, family, config, field_of, members,
  counts,
}

pub data Warning : Type 0 where
  lacks_required_families : (split : String) (missing : List String) → Warning
  one_class_partitions : (names : List String) → Warning

pub record SplitPlan : Type 0 where
  pub assignments : Assignments
  pub actual_strategy : String
  pub requested_mode : String
  pub seed : ℕ
  pub diagnostic_only : Bool
  pub run_ids_by_split : List (String × List String)
  pub session_ids_by_split : List (String × List String)
  pub class_run_counts_by_split : List (String × List (String × ℕ))
  pub family_run_counts_by_split : List (String × List (String × ℕ))
  pub config_run_counts_by_split : List (String × List (String × ℕ))
  pub warnings : List Warning

-- `sorted(run_id for run_id, value in assignments.items() if value == split)`
unfoldable pub runs_in : Assignments → String → List String
unfolding keep
runs_in assignments split = sorted (map (λ e. e.0) (keep (λ e. e.1 == split) assignments))

-- `dict(sorted(assignments.items()))`: by run identifier.
unfoldable pub sorted_assignments : Assignments → Assignments
sorted_assignments a = map (λ run_id. (run_id, get_or "" (lookup run_id a))) (sorted (keys a))

-- The values of a field in one split.
unfoldable pub values_in : Groups → Assignments → Field → String → List String
unfolding members field_of
values_in groups assignments f split = map (field_of f) (members groups assignments split)

-- `sorted(set(expected) - set(found))`
abbrev pub missing_from : List String → List String → List String
missing_from found expected = sorted (distinct (keep (λ x. not (contains found x)) expected))

module _ (groups : Groups) (a : Assignments) (diagnostic : Bool) (required : List String) where
  abbrev labels : List String
  labels = map (λ e. e.1.target_label) groups

  -- The checks of the partitions and of the classes.
  unfoldable pub check_partitions : Result (Unit {0})
  unfolding runs_in
  check_partitions =
      if diagnostic
      then raise_if (is_empty (runs_in a "train") || is_empty (runs_in a "test"))
          (value_error "diagnostic holdout requires non-empty train and test groups")
      else do
        raise_if (some_of (λ split. is_empty (runs_in a split)) splits)
            (value_error "primary split has empty partitions")
        raise_if (ltb (length (distinct labels)) 2)
            (value_error "primary evaluation requires at least two target classes")
        raise_if (some_of (λ split. not (same_set (values_in groups a label split) labels)) splits)
            (value_error "primary split lacks target-class coverage")

  abbrev lacking : String → List String
  lacking split = missing_from (values_in groups a family split) required

  unfoldable pub check_families : Result (Unit {0})
  check_families =
      raise_if (some_of (λ split. not (is_empty (lacking split))) splits && not diagnostic)
        (value_error "primary split lacks required-family coverage")

  abbrev family_warnings : List Warning
  family_warnings =
      map (λ split. lacks_required_families split (lacking split))
        (keep (λ split. not (is_empty (lacking split))) splits)

  abbrev one_class : List String
  one_class =
      keep
        (λ split.
          not (is_empty (runs_in a split))
          && ltb (length (distinct (values_in groups a label split))) 2)
        splits

  abbrev class_warnings : List Warning
  class_warnings =
      if diagnostic && not (is_empty one_class) then one_class_partitions one_class ∷ [] else []

  -- `_finalize`
  unfoldable pub finalize : String → String → ℕ → Result SplitPlan
  unfolding check_partitions check_families
  finalize strategy mode seed = do
    raise_if (not (same_set (keys a) (keys groups)))
        (value_error "split assignments do not cover every run exactly once")
    raise_if (not (subset (map (λ e. e.1) a) splits))
        (value_error "split assignments contain invalid values")
    check_partitions
    check_families
    ok (record {
      assignments = sorted_assignments a;
      actual_strategy = strategy;
      requested_mode = mode;
      seed = seed;
      diagnostic_only = diagnostic;
      run_ids_by_split = map (λ split. (split, runs_in a split)) splits;
      session_ids_by_split =
          map (λ split. (split, sorted (distinct (values_in groups a session split)))) splits;
      class_run_counts_by_split = counts groups a label;
      family_run_counts_by_split = counts groups a family;
      config_run_counts_by_split = counts groups a config;
      warnings = comm_guard.Prelude.◌++◌ family_warnings class_warnings;
    })
