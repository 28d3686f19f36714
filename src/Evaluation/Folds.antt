-- ===== src/Evaluation/Folds.antt =====
-- `CrossValidationFold` and `group_cross_validation_folds` of src/commguard/evaluation/splits.py.
pub mod Partition
use comm_guard.Prelude.{
  ℕ, zero, suc, ◌+◌, ◌-◌, String, Bool, true, false, not, ◌&&◌, Option, none, some, List, [], ◌∷◌,
  ◌++◌, map, ◌==◌, ℤ, pos, ltz, to_nat, ltb, leb, length, keep, some_of, contains, sorted, distinct,
  if◌then◌else◌, Exception, value_error, runtime_error, Result, ok, err, ◌>>=◌, ◌>>◌, raise_if,
}
use comm_guard.Evaluation.Groups.{Row, Groups, Field, run, session, family, field_of, run_groups}

pub record CrossValidationFold : Type 0 where
  pub fold : ℕ
  pub train_group_ids : List String
  pub test_group_ids : List String
  pub train_run_ids : List String
  pub test_run_ids : List String

-- The values of `mode`; any other text is `unknown_mode`.
pub data FoldMode : Type 0 where
  group_kfold leave_one_group_out unknown_mode : FoldMode

-- `group_field in allowed_fields`, where `none` is any other text.
abbrev allowed_field : Option Field → Result Field
allowed_field (some Field.run) = ok Field.run
allowed_field (some session) = ok session
allowed_field (some family) = ok family
allowed_field _ = err (value_error "group_field is not allowed")

-- `runs_by_group[value]`
unfoldable pub runs_of : Groups → Field → String → List String
unfolding field_of keep
runs_of groups f value = map (λ e. e.0) (keep (λ e. field_of f e.1 == value) groups)

-- `sorted(runs_by_group)`
abbrev pub group_ids_of : Groups → Field → List String
group_ids_of groups f = sorted (distinct (map (λ e. field_of f e.1) groups))

-- `ids[index::n]`: the elements at `index`, `index + n` and so on.
unfoldable pub strided : ℕ → ℕ → List String → List String
strided n index [] = []
strided n zero (x ∷ xs) = x ∷ strided n (n - 1) xs
strided n (suc index) (x ∷ xs) = strided n index xs

unfoldable pub strides : ℕ → ℕ → ℕ → List String → List (List String)
unfolding strided
strides n index zero ids = []
strides n index (suc left) ids = strided n index ids ∷ strides n (suc index) left ids

-- `test_groups_by_fold`
unfoldable pub test_groups : FoldMode → ℤ → List String → Result (List (List String))
unfolding strides
test_groups group_kfold n_splits ids = do
  raise_if (not (ltz (pos 1) n_splits && leb (to_nat n_splits) (length ids)))
      (value_error "n_splits must be between two and the complete-group count")
  ok (strides (to_nat n_splits) 0 (to_nat n_splits) ids)
test_groups leave_one_group_out n_splits ids = ok (map (λ id. id ∷ []) ids)
test_groups unknown_mode n_splits ids =
    err (value_error "mode must be group_kfold or leave_one_group_out")

abbrev pub all_runs : Groups → Field → List String → List String
all_runs groups f [] = []
all_runs groups f (value ∷ rest) = runs_of groups f value ++ all_runs groups f rest

abbrev pub make_fold : Groups → Field → List String → ℕ → List String → CrossValidationFold
make_fold groups f ids index test =
    let train = keep (λ value. not (contains test value)) ids in
    record {
      fold = index;
      train_group_ids = train;
      test_group_ids = test;
      train_run_ids = sorted (all_runs groups f train);
      test_run_ids = sorted (all_runs groups f test);
    }

-- The loop over `test_groups_by_fold`.
unfoldable pub make_folds :
    Groups → Field → List String → ℕ → List (List String) → Result (List CrossValidationFold)
unfolding runs_of
make_folds groups f ids index [] = ok []
make_folds groups f ids index (test ∷ rest) = do
  let fold = make_fold groups f ids index test
  raise_if (some_of (contains fold.train_run_ids) fold.test_run_ids)
      (runtime_error "complete-run cross-validation leakage detected")
  others ← make_folds groups f ids (suc index) rest
  ok (fold ∷ others)

-- `mode not in {…}`, which the source tests before it groups the runs.
abbrev check_mode : FoldMode → Result (Unit {0})
check_mode unknown_mode = err (value_error "mode must be group_kfold or leave_one_group_out")
check_mode _ = ok tt

-- `group_cross_validation_folds`
unfoldable pub group_cross_validation_folds :
    List Row → FoldMode → ℤ → Option Field → Result (List CrossValidationFold)
unfolding test_groups make_folds
group_cross_validation_folds rows mode n_splits group_field = do
  groups ← run_groups rows
  f ← allowed_field group_field
  check_mode mode
  let ids = group_ids_of groups f
  raise_if (ltb (length ids) 2)
      (value_error "grouped cross-validation requires at least two complete groups")
  tests ← test_groups mode n_splits ids
  make_folds groups f ids 0 tests
