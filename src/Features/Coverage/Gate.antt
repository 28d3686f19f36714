-- ===== src/Features/Coverage/Gate.antt =====
-- What the primary gate guarantees.
use comm_guard.Prelude.{
  ◌≤◌, ◌<◌, String, ◌≡◌, refl, Bool, true, false, ◌&&◌, Option, none, some, List, [], ◌∷◌, map,
  ◌==◌, arith, ℤ, pos, negsuc, ltz, to_nat, ltb, length, every, some_of, none_pass, All, Bool-cases,
  Option-cases, inl, inr, str_eq→eq, length-sorted, contains-sorted, contains, sorted, ap, sym, ◌∙◌,
  eq_refl, ok, raise_if-then,
}
use comm_guard.Features.Coverage.{
  CoverageRecord, ExtractionResult, emitted, valid_runs, windows_or_primary,
  require_primary_coverage,
}

-- `r` is an included record of the family and of the run, with windows of every required length.
unfoldable pub is_evidence : (ℤ → String) → List ℤ → (family id : String) → CoverageRecord → Bool
unfolding every
is_evidence key_of windows family id r =
    r.workload_family == family
    && ((r.status == "included" && every (emitted key_of r) windows)
        && elim r.run_id [ none ↦ false | some own ↦ own == id ])

-- A family with its runs, as the gate returns it: enough of them, and each with its evidence.
pub record HasRuns (key_of : ℤ → String) (windows : List ℤ) (records : List CoverageRecord)
    (minimum : ℤ) (e : String × List String) : Type 0 where
  pub enough : to_nat minimum ≤ length e.1
  pub evidence :
      (id : String)
      → contains e.1 id ≡ true
      → some_of (is_evidence key_of windows e.0 id) records ≡ true

positive : (n : ℤ) → ltz n (pos 1) ≡ false → 0 < to_nat n
positive (pos n) h = ground arith
positive (negsuc n) h = cc

module _ (key_of : ℤ → String) (windows : List ℤ) where
  valid_runs-evidence :
      (records : List CoverageRecord) (family id : String)
      → contains (valid_runs key_of windows records family) id ≡ true
      → some_of (is_evidence key_of windows family id) records ≡ true
  unfolding valid_runs contains some_of is_evidence
  valid_runs-evidence [] family id h = cc
  valid_runs-evidence (r ∷ rest) family id h = elim (Bool-cases (r.workload_family == family)) [
    | inr other ↦ ground (arith, valid_runs-evidence rest family id (rw other at h))
    | inl same ↦ elim (Bool-cases (r.status == "included" && every (emitted key_of r) windows)) [
      | inr unfit ↦ ground (arith, valid_runs-evidence rest family id (rw (same, unfit) at h))
      | inl fit ↦ elim (Option-cases r.run_id) [
        | inl absent ↦
            ground (arith, valid_runs-evidence rest family id (rw (same, fit, absent) at h))
        | inr (own, there) ↦
            let h' = rw (same, fit, there) at h in
            elim (Bool-cases (id == own)) [
              | inl this ↦
                  let e : id ≡ own = str_eq→eq id own this in
                  rw (is_evidence, same, fit, there, e, eq_refl own) refl
              | inr that ↦ ground (arith, valid_runs-evidence rest family id (rw that at h'))
            ]
      ]
    ]
  ]

  families_have_runs :
      (records : List CoverageRecord) (minimum : ℤ) (families : List String)
      → All
          (λ family.
            ltb (length (valid_runs key_of windows records family)) (to_nat minimum) ≡ false)
          families
      → (map {A = String × List String}
            (λ e. e.0)
            (map (λ family. (family, sorted (valid_runs key_of windows records family))) families)
          ≡ families)
        × All
            (HasRuns key_of windows records minimum)
            (map (λ family. (family, sorted (valid_runs key_of windows records family))) families)
  families_have_runs records minimum [] all = (refl, tt)
  families_have_runs records minimum (family ∷ rest) (enough, all) =
      let (names, others) = families_have_runs records minimum rest all in
      let found = valid_runs key_of windows records family in
      (
        ap (λ fs. family ∷ fs) names,
        (
          record {
            enough = ground (arith, length-sorted found);
            evidence =
                λ id h. valid_runs-evidence records family id (sym (contains-sorted found id) ∙ h);
          },
          others,
        ),
      )

-- When the gate returns, the minimum is positive, and each required family is reported, in the order
-- that was asked for, with at least the minimum number of runs; each run has an included record of the
-- family with windows of every required length.
pub require_primary_coverage-HasRuns :
    (key_of : ℤ → String) (x : ExtractionResult) (families : List String) (minimum : ℤ)
    (required : Option (List ℤ)) (runs : List (String × List String))
    → require_primary_coverage key_of x families minimum required ≡ ok runs
    → (0 < to_nat minimum)
      × (map (λ e. e.0) runs ≡ families)
      × All (HasRuns key_of (windows_or_primary required) x.coverage minimum) runs
unfolding require_primary_coverage
require_primary_coverage-HasRuns key_of x families minimum required runs h =
    let windows = windows_or_primary required in
    let few = λ (family : String).
      ltb (length (valid_runs key_of windows x.coverage family)) (to_nat minimum) in
    let (least, h1) = raise_if-then (ltz minimum (pos 1)) _ _ h in
    let (enough, h2) = raise_if-then (some_of few families) _ _ h1 in
    let result : map (λ family. (family, sorted (valid_runs key_of windows x.coverage family)))
          families
        ≡ runs =
      cc h2 in
    let (names, all) =
      families_have_runs key_of windows x.coverage minimum families
        (none_pass few families enough) in
    (positive minimum least, rw (← result) names, rw (← result) all)
