-- ===== src/Schemas/Manifest/Interval.antt =====
-- What a valid manifest says of its measurement.
use comm_guard.Prelude.{
  ◌≡◌, refl, arith, true, false, not, ℤ, pos, negsuc, ltz, is_negative, ok, >>=-eq-ok,
  if◌then◌else◌,
}
use comm_guard.Central.Json.{int, Fields, get, truthy}
use comm_guard.Central.Messages.{Python}
use comm_guard.Schemas.Values.{
  Calls, ◌and◌, is_null, is_bool, at_least, at_least_zero, equals_text, same_value, require-then,
  require_that-then, and-ok, require-ok,
}
use comm_guard.Schemas.Manifest.{
  is_explicit, is_evidence, validate_common, validate_identity, validate_interval,
  validate_strategy, validate_evidence, validate_explicit, validate_manifest,
}

not_above : (a b : ℤ) → at_least (int a) (int b) ≡ ok true → ltz a b ≡ false
unfolding at_least
not_above a b h = ground arith

not_below_zero : (a : ℤ) → ltz a (pos 0) ≡ false → is_negative a ≡ false
not_below_zero (pos n) h = refl
not_below_zero (negsuc n) h = cc

module _ (c : Calls) (rt : Python) (m : Fields) where
  -- The evidence checks were made and passed.
  pub evidence_valid :
      {u : Unit {0}}
      → validate_manifest c rt m ≡ ok u
      → is_explicit m ≡ true
      → is_evidence m ≡ true
      → (validate_identity m ≡ ok tt)
        × (validate_interval c m ≡ ok tt)
        × ((if equals_text "adversarial" (get m "designation") then validate_strategy m else ok tt)
            ≡ ok tt)
  unfolding validate_manifest validate_explicit validate_evidence
  evidence_valid done explicit evidence =
      let (_, _, h) = >>=-eq-ok (validate_common c rt m) _ done in
      let (_, identity, h1) = >>=-eq-ok (validate_identity m) _ (rw explicit at h) in
      let (_, interval, h2) = >>=-eq-ok (validate_interval c m) _ (rw evidence at h1) in
      (identity, interval, h2)

  -- In a valid manifest of the current schema that is not ambiguous, a completed run with valid
  -- participation whose measurement starts and ends at integers has 0 <= start <= end, and an
  -- experiment session.
  pub validate_manifest-interval :
      {u : Unit {0}} (start stop : ℤ)
      → validate_manifest c rt m ≡ ok u
      → is_explicit m ≡ true
      → is_evidence m ≡ true
      → get m "measurement_start_monotonic_ns" ≡ int start
      → get m "measurement_end_monotonic_ns" ≡ int stop
      → (is_negative start ≡ false)
        × (ltz stop start ≡ false)
        × (truthy (get m "experiment_session_id") ≡ true)
        × (same_value (get m "random_seed") (get m "seed") ≡ true)
  unfolding validate_interval validate_identity at_least
  validate_manifest-interval start stop done explicit evidence starts ends =
      let (identity, interval, _) = evidence_valid done explicit evidence in
      let (session, i1) = require-then (truthy (get m "experiment_session_id")) _ _ identity in
      let (_, i2) = require-then (truthy (get m "collection_id")) _ _ i1 in
      let (_, i3) = require-then (truthy (get m "corpus_id")) _ _ i2 in
      let (_, i4) = require-then (truthy (get m "node_id")) _ _ i3 in
      let (_, i5) = require-then (is_bool (get m "source_dirty")) _ _ i4 in
      let seeds = require-ok (same_value (get m "random_seed") (get m "seed")) _ i5 in
      let from = get m "measurement_start_monotonic_ns" in
      let to = get m "measurement_end_monotonic_ns" in
      let measured = get m "measured_duration_seconds" in
      let (_, h1) = require-then (not (is_null from)) _ _ interval in
      let (_, h2) = require-then (not (is_null to)) _ _ h1 in
      let (_, h3) =
        require_that-then (if is_null measured then ok false else at_least_zero measured) _ _ h2 in
      let (ordered, _) = require_that-then (at_least_zero from and at_least to from) _ _ h3 in
      let (low, high) = and-ok (at_least_zero from) (at_least to from) ordered in
      (
        not_below_zero start (not_above start (pos 0) (rw starts at low)),
        not_above stop start (rw (starts, ends) at high),
        session,
        seeds,
      )
