-- ===== src/Features/Planned/Valid.antt =====
-- The records that `_extract_planned_run` reports pass the checks of `CoverageRecord.validate`.
use comm_guard.Prelude.{
  ◌≡◌, refl, ◌∙◌, ℕ, ◌+◌, ◌≤◌, String, true, false, ◌&&◌, ◌||◌, Option, none, some, List, [], ◌∷◌,
  map, ◌==◌, ℤ, pos, is_negative, is_zero, next_z, ltz, is_empty, some_of, every, non_empty,
  contains, subset, same_set, keys, is_some, eq_refl, arith, validation_error, raise_if,
}
use comm_guard.Corpus.{PlannedRun, CorpusManifest}
use comm_guard.Features.Coverage.{
  reason_codes, has_bad_count, is_bad_gap, differ, reversed, unsupported_reason, validate_status,
  validate_durations, validate_counts, validate_record,
}
use comm_guard.Features.Planned.{
  RunRecord, Policy, Measured, start_z, end_z, record_of, excluded_record,
}

-- What the checks ask of the corpus, the plan and the arguments.
pub record IsContext (corpus : CorpusManifest) (plan : PlannedRun) (p : Policy) : Type 0 where
  pub named :
      every non_empty (
        plan.plan_id ∷ plan.workload_family ∷ plan.target_label ∷ corpus.experiment_session_id
        ∷ corpus.collection_id ∷ corpus.corpus_id ∷ corpus.node_id ∷ [])
      ≡ true
  pub requested : is_empty p.windows ≡ false
  pub positive : some_of (λ w. is_negative w || is_zero w) (map (λ w. pos w) p.windows) ≡ false
  pub tolerant : is_negative p.tolerance ≡ false

-- What they ask of the measurements, apart from the order of the common interval.
pub record IsMeasured (m : Measured) : Type 0 where
  pub usable : m.usable ≤ m.overlap + 1
  pub devices : same_set (keys m.gaps) ("0" ∷ "1" ∷ []) ≡ true
  pub gaps : some_of (λ gpu. some_of (λ e. is_bad_gap e.1) gpu.1) m.gaps ≡ false

contains-cons :
    (x : String) (xs ys : List String)
    → every (contains ys) xs ≡ true
    → every (contains (x ∷ ys)) xs ≡ true
unfolding every contains
contains-cons x [] ys h = refl
contains-cons x (y ∷ xs) ys h = ground (arith, contains-cons x xs ys)

subset_self : (xs : List String) → every (contains xs) xs ≡ true
unfolding every contains
subset_self [] = refl
subset_self (x ∷ xs) = rw (eq_refl x) (contains-cons x xs xs (subset_self xs))

same_set_self : (xs : List String) → same_set xs xs ≡ true
unfolding same_set subset
same_set_self xs = rw (subset_self xs) refl

-- Counts under the keys of the windows.
keys-counts :
    (key : ℤ → String) (n : ℕ → ℕ) (ws : List ℕ)
    → keys (map (λ w. (key (pos w), pos (n w))) ws) ≡ map key (map (λ w. pos w) ws)
keys-counts key n [] = refl
keys-counts key n (w ∷ ws) = rw (keys-counts key n ws) refl

has_bad_count-counts :
    (key : ℤ → String) (n : ℕ → ℕ) (ws : List ℕ)
    → has_bad_count (map (λ w. (key (pos w), pos (n w))) ws) ≡ false
unfolding some_of
has_bad_count-counts key n [] = refl
has_bad_count-counts key n (w ∷ ws) = has_bad_count-counts key n ws

two_counts : (a b : ℕ) → has_bad_count (("0", pos a) ∷ ("1", pos b) ∷ []) ≡ false
unfolding some_of
two_counts a b = refl

both_ends : (c : Option (ℕ × ℕ)) → differ (is_some (start_z c)) (is_some (end_z c)) ≡ false
both_ends none = refl
both_ends (some (a, b)) = refl

is_empty-map {ℓ κ} :
    {A : Type ℓ} {B : Type κ} (f : A → B) (xs : List A) → is_empty (map f xs) ≡ is_empty xs
is_empty-map f [] = refl
is_empty-map f (x ∷ xs) = refl

module _ (corpus : CorpusManifest) (plan : PlannedRun) (p : Policy)
    (context : IsContext corpus plan p) where
  -- The checks of a record up to the order of its common interval.
  pub validate_record-order :
      (status : String) (reason : Option String) (warmup : ℕ) (n : ℕ → ℕ) (m : Measured)
      → (status == "included" || status == "excluded") ≡ true
      → (status == "included" && is_some reason) ≡ false
      → (status == "excluded" && unsupported_reason reason) ≡ false
      → IsMeasured m
      → validate_record p.key_of (
          record_of corpus plan p status reason warmup
            (map (λ w. (p.key_of (pos w), pos (n w))) p.windows)
            m)
        ≡ raise_if
            (reversed (start_z m.common) (end_z m.common))
            (validation_error "coverage: common interval is reversed")
  unfolding validate_record validate_status validate_durations validate_counts record_of
  validate_record-order status reason warmup n m known included excluded measured =
      let keyed = keys-counts p.key_of n p.windows in
      let requested = is_empty-map (λ (w : ℕ). pos w) p.windows ∙ context.requested in
      let small : ltz (next_z (pos m.overlap)) (pos m.usable) ≡ false =
        let u = measured.usable in ground arith in
      rw
        (
          context.named,
          known,
          included,
          excluded,
          requested,
          context.positive,
          small,
          context.tolerant,
          keyed,
          same_set_self (map p.key_of (map (λ w. pos w) p.windows)),
          has_bad_count-counts p.key_of n p.windows,
          measured.devices,
          measured.gaps,
          both_ends m.common,
          same_set_self ("0" ∷ "1" ∷ []),
          two_counts m.rows0 m.rows1,
        )
        refl

  pub excluded_record-order :
      (reason : String) (manifest : Option RunRecord) (m : Measured)
      → contains reason_codes reason ≡ true
      → IsMeasured m
      → validate_record p.key_of (excluded_record corpus plan p reason manifest m)
        ≡ raise_if
            (reversed (start_z m.common) (end_z m.common))
            (validation_error "coverage: common interval is reversed")
  unfolding excluded_record
  excluded_record-order reason manifest m code measured =
      validate_record-order "excluded" (some reason) _ (λ w. 0) m refl refl (rw code refl) measured
