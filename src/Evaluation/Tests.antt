-- ===== src/Evaluation/Tests.antt =====
-- Tests of the split plans, of the folds and of the audit.
use comm_guard.Prelude.{
  ◌*◌, ◌/◌, String, ◌≡◌, refl, true, false, none, some, List, [], ◌∷◌, arith, keep, every, some_of,
  contains, subset, same_set, sorted, distinct, lookup, insert, Result, ok, err,
}
use comm_guard.Evaluation.Groups.{
  Row, RunGroup, Groups, Assignments, field_of, same_group, candidate_of, add_rows, run_groups,
  members, tally, counts,
}
use comm_guard.Evaluation.Finalize.{
  SplitPlan, runs_in, values_in, sorted_assignments, check_partitions, check_families, finalize,
}
use comm_guard.Evaluation.Strategies.{
  Library, assign_stratum, assign_by, is_valid_candidate, session_pairs, first_valid,
  session_assignments,
}
use comm_guard.Evaluation.Strategies.Strata.{Reaches, assign_stratum-Reaches}
use comm_guard.Evaluation.Plan.{Mode, Options, plan_for, make_split_plan}
use comm_guard.Evaluation.Folds.{
  CrossValidationFold, runs_of, strided, strides, test_groups, make_folds,
  group_cross_validation_folds,
}
use comm_guard.Evaluation.Audit.{
  AuditRow, Audit, is_forbidden, splits_of, split_leaks, duration_exclusive, audit_leakage,
}

evaluation : Unit {0}
unfolding field_of same_group candidate_of add_rows run_groups members tally counts runs_in
    values_in sorted_assignments check_partitions check_families finalize runs_of strided strides
    test_groups make_folds group_cross_validation_folds is_forbidden splits_of split_leaks
    duration_exclusive audit_leakage keep every some_of contains subset same_set sorted distinct
    lookup insert
evaluation = tt

abbrev group : String → String → String → String × RunGroup
group run_id session_id target = (
  run_id,
  record {
    run_id = run_id;
    experiment_session_id = session_id;
    target_label = target;
    workload_family = "f";
    workload_config_id = "c";
  },
)

-- Two classes, in each of three sessions.
abbrev six : Groups
six =
    group "a0" "s0" "x"
    ∷ group "a1" "s0" "y"
    ∷ group "b0" "s1" "x"
    ∷ group "b1" "s1" "y"
    ∷ group "c0" "s2" "x"
    ∷ group "c1" "s2" "y"
    ∷ []

abbrev by_hand : Assignments
by_hand =
    ("a0", "test")
    ∷ ("a1", "test")
    ∷ ("b0", "validation")
    ∷ ("b1", "validation")
    ∷ ("c0", "train")
    ∷ ("c1", "train")
    ∷ []

abbrev returned : SplitPlan
returned = elim (finalize six by_hand false ("f" ∷ []) "strategy" "auto" 7) [
  | ok plan ↦ plan
  | _ ↦ record {
    assignments = [];
    actual_strategy = "";
    requested_mode = "";
    seed = 0;
    diagnostic_only = true;
    run_ids_by_split = [];
    session_ids_by_split = [];
    class_run_counts_by_split = [];
    family_run_counts_by_split = [];
    config_run_counts_by_split = [];
    warnings = [];
  }
]

finalize-six : finalize six by_hand false ("f" ∷ []) "strategy" "auto" 7 ≡ ok returned
unfolding evaluation
finalize-six = refl

-- A shuffle that moves nothing.
abbrev plain : Library
plain = record {
  shuffle = λ key xs. xs;
  round_product = λ n fraction. n * fraction / 1000000;
  decimal = λ n. "7";
}

abbrev three_runs : List String
three_runs = "a" ∷ "b" ∷ "c" ∷ []

assign_stratum-Reaches_example :
    (a : Assignments) × (assign_stratum plain 7 900000 50000 "class:x" three_runs ≡ ok a)
    × Reaches a "test"
    × Reaches a "validation"
    × Reaches a "train"
assign_stratum-Reaches_example =
    assign_stratum-Reaches plain 7 900000 50000 "class:x" three_runs (λ key. refl) (omega arith)

abbrev row : String → String → Row
row run_id session_id = record {
  run_id = some run_id;
  legacy_grouping_ambiguous = false;
  experiment_session_id = some session_id;
  target_label = some "x";
  workload_family = some "f";
  workload_config_id = some "c";
  plan_id = none;
}

abbrev rows : List Row
rows = row "a0" "s0" ∷ row "a1" "s0" ∷ row "b0" "s1" ∷ []

abbrev two_folds : List CrossValidationFold
two_folds =
    record {
      fold = 0;
      train_group_ids = "s1" ∷ [];
      test_group_ids = "s0" ∷ [];
      train_run_ids = "b0" ∷ [];
      test_run_ids = "a0" ∷ "a1" ∷ [];
    }
    ∷ record {
      fold = 1;
      train_group_ids = "s0" ∷ [];
      test_group_ids = "s1" ∷ [];
      train_run_ids = "a0" ∷ "a1" ∷ [];
      test_run_ids = "b0" ∷ [];
    }
    ∷ []

abbrev audit_row : String → AuditRow
audit_row run_id = record {
  run_id = run_id;
  target_label = "x";
  window = 30000000;
  legacy_grouping_ambiguous = false;
  experiment_session_id = some "s0";
}

abbrev audited : List AuditRow
audited = audit_row "a0" ∷ audit_row "a0" ∷ audit_row "b0" ∷ []

abbrev columns : List String
columns = "power_mean" ∷ []

abbrev same_text : String → String
same_text s = s

abbrev clean : Audit
clean = record {
  passed = true;
  forbidden_feature_columns = [];
  run_split_leaks = [];
  class_specific_window_lengths = false;
  ambiguous_or_missing_session_runs = [];
}

audit-clean : audit_leakage same_text audited columns by_hand ≡ ok clean
unfolding evaluation
audit-clean = refl

-- The six runs as rows, planned by session.
abbrev labelled : String → String → String → Row
labelled run_id session_id target = record (row run_id session_id) { target_label = some target }

abbrev six_rows : List Row
six_rows =
    labelled "a0" "s0" "x"
    ∷ labelled "a1" "s0" "y"
    ∷ labelled "b0" "s1" "x"
    ∷ labelled "b1" "s1" "y"
    ∷ labelled "c0" "s2" "x"
    ∷ labelled "c1" "s2" "y"
    ∷ []

abbrev by_session_options : Options
by_session_options = record {
  mode = Mode.session_holdout;
  seed = 7;
  test_fraction = 200000;
  validation_fraction = 200000;
  required_families = "f" ∷ [];
  holdout_value = none;
}

abbrev plan_or : Result SplitPlan → SplitPlan
plan_or (ok plan) = plan
plan_or (err e) = returned

abbrev session_plan : SplitPlan
session_plan = plan_or (make_split_plan plain six_rows by_session_options)

planning : Unit {0}
unfolding evaluation make_split_plan plan_for session_assignments session_pairs first_valid
    is_valid_candidate assign_by
planning = tt
