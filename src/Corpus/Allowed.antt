-- ===== src/Corpus/Allowed.antt =====
-- The allow-list of a valid corpus manifest.
use comm_guard.Prelude.{
  ◌≤◌, String, ◌≡◌, refl, true, false, not, some, List, [], ◌∷◌, map, ◌==◌, arith, str_eq→eq,
  eq_refl, Bool-cases, Option-cases, inl, inr, length, contains, distinct, All, non_empty, and-true,
  ok, >>=-eq-ok, raise_if-then,
}
use comm_guard.Corpus.{
  PlannedRun, CorpusManifest, Checks, is_unique, declared, validate_scalars, validate_reference,
  validate_planned_runs, validate_runs, validate_corpus, fills, planned_for_run, allows,
}

length-distinct : (xs : List String) → length (distinct xs) ≤ length xs
unfolding distinct
length-distinct [] = omega arith
length-distinct (x ∷ xs) = ground (arith, length-distinct xs)

contains-distinct : (xs : List String) (a : String) → contains (distinct xs) a ≡ contains xs a
unfolding distinct contains
contains-distinct [] a = refl
contains-distinct (x ∷ xs) a = elim (Bool-cases (a == x)) [
  | inl same ↦
      let e : a ≡ x = str_eq→eq a x same in rw e (ground (arith, eq_refl x, contains-distinct xs x))
  | inr other ↦ ground (arith, contains-distinct xs a)
]

is_unique-cons :
    (x : String) (xs : List String)
    → is_unique (x ∷ xs) ≡ true
    → (contains xs x ≡ false) × (is_unique xs ≡ true)
unfolding is_unique distinct
is_unique-cons x xs h = (
  ground (arith, length-distinct xs, contains-distinct xs x),
  ground (arith, length-distinct xs, contains-distinct xs x),
)

-- No planned run of the list is filled by `run_id`, or only `p` is.
abbrev pub Only : String → PlannedRun → PlannedRun → Type 0
Only run_id p q = fills run_id q ≡ true → q ≡ p

none_fills :
    (runs : List PlannedRun) (run_id : String) (p : PlannedRun)
    → non_empty run_id ≡ true
    → contains (declared runs) run_id ≡ false
    → All (Only run_id p) runs
unfolding declared contains
none_fills [] run_id p full h = tt
none_fills (q ∷ rest) run_id p full h = elim (Option-cases q.accepted_run_id) [
  | inl absent ↦ (λ f. cc (rw absent at f), none_fills rest run_id p full (rw absent at h))
  | inr (id, there) ↦ elim (Bool-cases (non_empty id)) [
    | inl named ↦
        let h' = rw (there, named) at h in
        (
          λ f.
              let e : id ≡ run_id = str_eq→eq id run_id (rw there at f) in
              absurd (ground (arith, eq_refl run_id)),
          none_fills rest run_id p full (ground arith),
        )
    | inr unnamed ↦ (
      λ f. let e : id ≡ run_id = str_eq→eq id run_id (rw there at f) in absurd (ground arith),
      none_fills rest run_id p full (rw (there, unnamed) at h),
    )
  ]
]

declared-tail :
    (q : PlannedRun) (rest : List PlannedRun)
    → is_unique (declared (q ∷ rest)) ≡ true
    → is_unique (declared rest) ≡ true
unfolding declared
declared-tail q rest h = elim (Option-cases q.accepted_run_id) [
  | inl absent ↦ rw absent at h
  | inr (id, there) ↦ elim (Bool-cases (non_empty id)) [
    | inl named ↦ (is_unique-cons id (declared rest) (rw (there, named) at h)).1
    | inr unnamed ↦ rw (there, unnamed) at h
  ]
]

declared-head :
    (q : PlannedRun) (rest : List PlannedRun) (run_id : String)
    → is_unique (declared (q ∷ rest)) ≡ true
    → non_empty run_id ≡ true
    → fills run_id q ≡ true
    → contains (declared rest) run_id ≡ false
unfolding declared
declared-head q rest run_id h full f = elim (Option-cases q.accepted_run_id) [
  | inl absent ↦ cc (rw absent at f)
  | inr (id, there) ↦
      let e : id ≡ run_id = str_eq→eq id run_id (rw there at f) in
      let named : non_empty id ≡ true = rw e full in
      rw (← e) (is_unique-cons id (declared rest) (rw (there, named) at h)).0
]

planned_for_run-Only :
    (runs : List PlannedRun) (run_id : String) (p : PlannedRun)
    → non_empty run_id ≡ true
    → is_unique (declared runs) ≡ true
    → planned_for_run runs run_id ≡ some p
    → All (Only run_id p) runs
unfolding planned_for_run declared
planned_for_run-Only [] run_id p full unique h = tt
planned_for_run-Only (q ∷ rest) run_id p full unique h = elim (Bool-cases (fills run_id q)) [
  | inl filled ↦
      let e : q ≡ p = cc (rw filled at h) in
      (λ f. e, none_fills rest run_id p full (declared-head q rest run_id unique full filled))
  | inr other ↦ (
    λ f. cc (f, other),
    planned_for_run-Only rest run_id p full (declared-tail q rest unique) (rw other at h),
  )
]

validate_corpus_unique :
    (c : Checks) (m : CorpusManifest)
    → validate_corpus c m ≡ ok tt
    → is_unique (declared m.planned_runs) ≡ true
unfolding validate_corpus validate_runs
validate_corpus_unique c m h =
    let (_, _, h1) = >>=-eq-ok (validate_scalars c m) _ h in
    let (_, _, h2) = >>=-eq-ok (validate_reference c m.calibration_reference) _ h1 in
    let (_, h3) = raise_if-then (not (is_unique (map (λ p. p.plan_id) m.planned_runs))) _ _ h2 in
    let (_, _, h4) = >>=-eq-ok (validate_planned_runs m.planned_runs) _ h3 in
    let (unique, _) = raise_if-then (not (is_unique (declared m.planned_runs))) _ _ h4 in
    ground arith

-- In a valid manifest, a run that is allowed under a designation fills exactly one planned slot, and
-- that slot has this designation.
pub allows-one_slot :
    (c : Checks) (m : CorpusManifest) (run_id designation : String)
    → validate_corpus c m ≡ ok tt
    → non_empty run_id ≡ true
    → allows m run_id designation ≡ true
    → (p : PlannedRun) × (planned_for_run m.planned_runs run_id ≡ some p)
      × (p.designation ≡ designation)
      × All (Only run_id p) m.planned_runs
unfolding allows
allows-one_slot c m run_id designation valid full h =
    let (_, designated) = and-true (contains m.accepted_run_ids run_id) _ h in
    elim (Option-cases (planned_for_run m.planned_runs run_id)) [
      | inl missing ↦ cc (rw missing at designated)
      | inr (p, found) ↦ (
        p,
        found,
        str_eq→eq p.designation designation (rw found at designated),
        planned_for_run-Only m.planned_runs run_id p full (validate_corpus_unique c m valid) found,
      )
    ]
