-- ===== src/Evaluation/Finalize/Sound.antt =====
-- What `_finalize` checks of the assignments before it returns a plan.
use comm_guard.Prelude.{
  ℕ, String, ◌≡◌, refl, Bool, true, false, not, List, [], ◌∷◌, map, arith, ltb, length, is_empty,
  keep, every, some_of, contains, subset, same_set, distinct, keys, All, ok, >>=-eq-ok,
  raise_if-then, raise_if-ok, none_pass, is_empty-sorted, is_empty-distinct,
}
use comm_guard.Evaluation.Groups.{Groups, Assignments, splits, label, family}
use comm_guard.Evaluation.Finalize.{
  SplitPlan, runs_in, values_in, missing_from, labels, check_partitions, check_families, lacking,
  finalize,
}

-- A split with runs, whose classes are exactly those of the corpus, and with every required family.
pub record IsCovered (groups : Groups) (a : Assignments) (required : List String) (split : String)
    : Type 0 where
  pub has_runs : is_empty (runs_in a split) ≡ false
  pub same_classes :
      same_set (values_in groups a label split) (map (λ e. e.1.target_label) groups) ≡ true
  pub has_families : subset required (values_in groups a family split) ≡ true

keep-nil :
    (found expected : List String)
    → is_empty (keep (λ x. not (contains found x)) expected) ≡ true
    → subset expected found ≡ true
unfolding subset every keep
keep-nil found [] h = refl
keep-nil found (x ∷ xs) h = ground (arith, keep-nil found xs)

missing_from-nil :
    (found expected : List String)
    → is_empty (missing_from found expected) ≡ true
    → subset expected found ≡ true
missing_from-nil found expected h = keep-nil found expected (
    let missing = keep (λ x. not (contains found x)) expected in
    cc (h, is_empty-sorted (distinct missing), is_empty-distinct missing))

not-false : (b : Bool) → not b ≡ false → b ≡ true
not-false true h = refl
not-false false h = cc

module _ (groups : Groups) (a : Assignments) (required : List String) where
  split-IsCovered :
      (split : String)
      → is_empty (runs_in a split) ≡ false
      → not (same_set (values_in groups a label split) (labels groups a false required)) ≡ false
      → not (is_empty (lacking groups a false required split)) ≡ false
      → IsCovered groups a required split
  split-IsCovered split runs classes families = record {
    has_runs = runs;
    same_classes = not-false _ classes;
    has_families =
        missing_from-nil (values_in groups a family split) required (not-false _ families);
  }

  partitions_hold :
      {u : Unit {0}}
      → check_partitions groups a false required ≡ ok u
      → (some_of (λ split. is_empty (runs_in a split)) splits ≡ false)
        × (some_of
              (λ split.
                not (same_set (values_in groups a label split) (labels groups a false required)))
              splits
            ≡ false)
  unfolding check_partitions
  partitions_hold done =
      let (runs, d1) =
        raise_if-then (some_of (λ split. is_empty (runs_in a split)) splits) _ _ done in
      let (_, d2) =
        raise_if-then (ltb (length (distinct (labels groups a false required))) 2) _ _ d1 in
      (runs, raise_if-ok _ _ d2)

  families_hold :
      {u : Unit {0}}
      → check_families groups a false required ≡ ok u
      → some_of (λ split. not (is_empty (lacking groups a false required split))) splits ≡ false
  unfolding check_families
  families_hold done = ground (arith, raise_if-ok _ _ done)

  -- If `finalize` returns a primary plan, the assignments it is given have exactly the runs of the corpus,
  -- in the three splits only, and each split has runs, every class and every required family.
  pub finalize-IsCovered :
      (strategy mode : String) (seed : ℕ) (plan : SplitPlan)
      → finalize groups a false required strategy mode seed ≡ ok plan
      → (same_set (keys a) (keys groups) ≡ true)
        × (subset (map (λ e. e.1) a) splits ≡ true)
        × All (IsCovered groups a required) splits
  unfolding finalize
  finalize-IsCovered strategy mode seed plan done =
      let (exact, d1) = raise_if-then (not (same_set (keys a) (keys groups))) _ _ done in
      let (valid, d2) = raise_if-then (not (subset (map (λ e. e.1) a) splits)) _ _ d1 in
      let (_, parts, d3) = >>=-eq-ok (check_partitions groups a false required) _ d2 in
      let (_, families, _) = >>=-eq-ok (check_families groups a false required) _ d3 in
      let (runs, classes) = partitions_hold parts in
      let r = none_pass (λ split. is_empty (runs_in a split)) splits runs in
      let c = none_pass _ splits classes in
      let f = none_pass _ splits (families_hold families) in
      (
        not-false _ exact,
        not-false _ valid,
        (
          split-IsCovered _ r.0 c.0 f.0,
          (split-IsCovered _ r.1.0 c.1.0 f.1.0, (split-IsCovered _ r.1.1.0 c.1.1.0 f.1.1.0, tt)),
        ),
      )
