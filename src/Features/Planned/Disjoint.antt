-- ===== src/Features/Planned/Disjoint.antt =====
-- A run whose devices were never sampled at the same time.
use comm_guard.Prelude.{
  ◌≡◌, refl, ◌∙◌, ◌<◌, ℕ, max, min, true, false, not, ◌||◌, some, List, ◌∷◌, eqb, leb, ltb, some_of,
  contains, arith, validation_error, ok, err,
}
use comm_guard.Corpus.{PlannedRun, CorpusManifest}
use comm_guard.Features.Coverage.{validate_record}
use comm_guard.Features.Extraction.{samples_of, last_time}
use comm_guard.Features.Planned.{RunRecord, Policy, Measured, excluded_record, record_of}
use comm_guard.Features.Planned.Cascade.{
  Outcome, excluded, counted_of, extract_common, extract_samples,
}
use comm_guard.Features.Planned.Valid.{IsContext, IsMeasured, excluded_record-order}
use comm_guard.Features.Planned.Measuring.{counted_of-IsMeasured}

module _ {ℓ} {A : Type ℓ} (gpu time : A → ℕ) (p : Policy) (corpus : CorpusManifest)
    (plan : PlannedRun) (context : IsContext corpus plan p) where
  -- If the last sample of one device was taken before the first of the other, the run is excluded with
  -- the reason `no_common_interval`, and its record is refused by `CoverageRecord.validate`.
  pub extract_samples-disjoint :
      (m : RunRecord) (all : List A) (a b : A) (rest0 rest1 : List A)
      → some_of (λ s. not (eqb (gpu s) 0 || eqb (gpu s) 1)) all ≡ false
      → samples_of gpu time 0 all ≡ a ∷ rest0
      → samples_of gpu time 1 all ≡ b ∷ rest1
      → min (last_time gpu time (time a) rest0) (last_time gpu time (time b) rest1)
        < max (time a) (time b)
      → (o : Outcome) × (extract_samples gpu time p corpus plan m all ≡ ok o)
        × (o.1.reason_code ≡ some "no_common_interval")
        × (validate_record p.key_of o.1
            ≡ err (validation_error "coverage: common interval is reversed"))
  unfolding extract_samples extract_common excluded_record record_of contains
  extract_samples-disjoint m all a b rest0 rest1 known has0 has1 apart =
      let first = max (time a) (time b) in
      let last = min (last_time gpu time (time a) rest0) (last_time gpu time (time b) rest1) in
      let before : leb last first ≡ true = ground arith in
      let backwards : ltb last first ≡ true = ground arith in
      let counted = counted_of gpu time p corpus plan (a ∷ rest0) (b ∷ rest1) in
      let h = counted_of-IsMeasured gpu time p corpus plan context (a ∷ rest0) (b ∷ rest1) in
      let common : Measured = record counted { common = some (first, last) } in
      let h' : IsMeasured common = record {
        usable = h.usable;
        devices = h.devices;
        gaps = h.gaps;
      } in
      (
        excluded gpu time p corpus plan "no_common_interval" (some m) common,
        rw (known, has0, has1, before) refl,
        refl,
        excluded_record-order corpus plan p context "no_common_interval" (some m) common refl h'
            ∙ rw backwards refl,
      )
