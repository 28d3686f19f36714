-- ===== src/Features/Planned/Measuring.antt =====
-- What is reported of a run once its telemetry is read.
use comm_guard.Prelude.{
  ◌≡◌, refl, ◌∙◌, ◌⊎◌, inl, inr, ℕ, ◌+◌, ◌-◌, ◌≤◌, String, Bool, true, false, not, ◌&&◌, ◌||◌,
  Option, none, some, List, [], ◌∷◌, map, eqb, ℤ, pos, negsuc, is_negative, leb, ltb, length,
  is_empty, keep, some_of, contains, subset, same_set, every, arith, if◌then◌else◌, Result, ok, err,
}
use comm_guard.Corpus.{PlannedRun, CorpusManifest}
use comm_guard.Features.Alignment.{align_samples_by_timestamp}
use comm_guard.Features.Coverage.{reason_codes, is_bad_gap, reversed, validate_record}
use comm_guard.Features.Extraction.{Window, extract_run_features, samples_of}
use comm_guard.Features.Planned.{
  RunRecord, Policy, Measured, unmeasured, start_z, end_z, record_of, excluded_record, smallest,
}
use comm_guard.Features.Planned.Cascade.{
  Outcome, gap_entry, gaps_of, options_of, usable_start, usable_end, counted_of, excluded, finish,
  extract_usable, extract_common, extract_sorted, extract_samples,
}
use comm_guard.Features.Planned.Valid.{
  IsContext, IsMeasured, validate_record-order, excluded_record-order,
}

-- A run is included with rows and without a reason, or excluded without rows and with a reason; its
-- record passes the checks, unless it is one of a run without a common interval.
pub record IsReported (p : Policy) (o : Outcome) : Type 0 where
  pub status :
      ((o.1.status ≡ "included") × (is_empty o.0 ≡ false) × (o.1.reason_code ≡ none))
      ⊎ ((o.1.status ≡ "excluded") × (o.0 ≡ []))
  pub valid : (o.1.reason_code ≡ some "no_common_interval") ⊎ (validate_record p.key_of o.1 ≡ ok tt)

abbrev pub Reports : Policy → Result Outcome → Type 0
Reports p r = (o : Outcome) × (r ≡ ok o) × IsReported p o

pub Reports-if :
    (p : Policy) (b : Bool) (x y : Result Outcome)
    → (b ≡ true → Reports p x)
    → (b ≡ false → Reports p y)
    → Reports p (if b then x else y)
Reports-if p true x y h k = h refl
Reports-if p false x y h k = k refl

align_returns {ℓ} :
    {A : Type ℓ} (time : A → ℕ) (left right : List A) (tolerance : ℤ)
    → is_negative tolerance ≡ false
    → (pairs : List (A × A)) × (align_samples_by_timestamp time left right tolerance ≡ ok pairs)
unfolding align_samples_by_timestamp
align_returns time left right (pos n) h = (_, refl)
align_returns time left right (negsuc n) h = cc

pub either_code :
    (b : Bool) (s t : String)
    → contains reason_codes s ≡ true
    → contains reason_codes t ≡ true
    → contains reason_codes (if b then s else t) ≡ true
either_code true s t h k = h
either_code false s t h k = k

module _ {ℓ} {A : Type ℓ} (gpu time : A → ℕ) (p : Policy) (corpus : CorpusManifest)
    (plan : PlannedRun) (context : IsContext corpus plan p) where
  excluded-IsReported :
      (reason : String) (manifest : Option RunRecord) (m : Measured)
      → contains reason_codes reason ≡ true
      → IsMeasured m
      → reversed (start_z m.common) (end_z m.common) ≡ false
      → IsReported p (excluded gpu time p corpus plan reason manifest m)
  unfolding excluded_record record_of
  excluded-IsReported reason manifest m code measured ordered = record {
    status = inr (refl, refl);
    valid = inr (
        excluded_record-order corpus plan p context reason manifest m code measured
        ∙ rw ordered refl);
  }

  unmeasured-IsMeasured : IsMeasured unmeasured
  unfolding same_set subset every contains some_of
  unmeasured-IsMeasured = record { usable = omega arith; devices = refl; gaps = refl }

  -- An exclusion before anything was measured.
  pub early :
      (reason : String) (manifest : Option RunRecord)
      → contains reason_codes reason ≡ true
      → Reports p (ok (excluded gpu time p corpus plan reason manifest unmeasured))
  early reason manifest code =
      (_, refl, excluded-IsReported reason manifest unmeasured code unmeasured-IsMeasured refl)

  no_bad_gap :
      (gs : List ℕ) → some_of (λ (e : String × Option ℤ). is_bad_gap e.1) (gap_entry (gs)) ≡ false
  unfolding some_of
  no_bad_gap [] = refl
  no_bad_gap (g ∷ gs) = refl

  finish-IsReported :
      (m : RunRecord) (measured : Measured) (r : Result (List Window))
      → IsMeasured measured
      → reversed (start_z measured.common) (end_z measured.common) ≡ false
      → IsReported p (finish gpu time p corpus plan m measured r)
  unfolding finish contains record_of
  finish-IsReported m measured (err e) h ordered =
      excluded-IsReported "feature_error" (some m) measured refl h ordered
  finish-IsReported m measured (ok []) h ordered =
      excluded-IsReported "insufficient_samples" (some m) measured refl h ordered
  finish-IsReported m measured (ok (r ∷ rs)) h ordered = record {
    status = inl (refl, refl, refl);
    valid = inr (
        validate_record-order corpus plan p context "included" none
          (if p.exclude_startup then m.warmup else 0) _ measured refl refl refl h
        ∙ rw ordered refl);
  }

  extract_usable-Reports :
      (m : RunRecord) (all s0 s1 : List A) (measured : Measured) (start stop : ℕ)
      → IsMeasured measured
      → reversed (start_z measured.common) (end_z measured.common) ≡ false
      → Reports p (extract_usable gpu time p corpus plan m all s0 s1 measured start stop)
  unfolding extract_usable contains
  extract_usable-Reports m all s0 s1 measured start stop h ordered =
      let in_interval : A → Bool = λ s. leb start (time s) && leb (time s) stop in
      let (pairs, e) =
        align_returns time (keep in_interval s0) (keep in_interval s1) p.tolerance
          context.tolerant in
      let counted : Measured = record measured { pairs = length pairs } in
      let h' : IsMeasured counted = record {
        usable = h.usable;
        devices = h.devices;
        gaps = h.gaps;
      } in
      rw e (
        Reports-if p (ltb (length pairs) 2) _ _
          (λ few.
            (_, refl, excluded-IsReported "insufficient_samples" (some m) counted refl h' ordered))
          (λ enough. (
            _,
            refl,
            finish-IsReported m counted (extract_run_features gpu time (options_of p m) all) h'
                ordered,
          )))

  usable_short :
      (m : RunRecord) (first last : ℕ)
      → usable_end p m last - usable_start p m first ≤ last - first + 1
  usable_short m first last = ground arith

  extract_common-Reports :
      (m : RunRecord) (all s0 s1 : List A) (counted : Measured) (first last : ℕ)
      → IsMeasured counted
      → Reports p (extract_common gpu time p corpus plan m all s0 s1 counted first last)
  unfolding extract_common excluded_record record_of contains
  extract_common-Reports m all s0 s1 counted first last h =
      let start = usable_start p m first in
      let stop = usable_end p m last in
      let common : Measured = record counted { common = some (first, last) } in
      let measured : Measured = record common { overlap = last - first; usable = stop - start } in
      let h' : IsMeasured measured = record {
        usable = usable_short m first last;
        devices = h.devices;
        gaps = h.gaps;
      } in
      Reports-if p (leb last first) _ _
        (λ none_common. (_, refl, record { status = inr (refl, refl); valid = inl refl }))
        (λ some_common.
          let ordered : ltb last first ≡ false = ground arith in
          Reports-if p (ltb (stop - start) (smallest p.windows)) _ _
            (λ short. (
              _,
              refl,
              excluded-IsReported "post_warmup_interval_too_short" (some m) measured refl h'
                  ordered,
            ))
            (λ long. extract_usable-Reports m all s0 s1 measured start stop h' ordered))

  extract_sorted-Reports :
      (m : RunRecord) (all s0 s1 : List A) (counted : Measured)
      → IsMeasured counted
      → reversed (start_z counted.common) (end_z counted.common) ≡ false
      → Reports p (extract_sorted gpu time p corpus plan m all s0 s1 counted)
  unfolding contains
  extract_sorted-Reports m all [] s1 counted h ordered =
      (_, refl, excluded-IsReported "missing_required_gpu" (some m) counted refl h ordered)
  extract_sorted-Reports m all (a ∷ rest0) [] counted h ordered =
      (_, refl, excluded-IsReported "missing_required_gpu" (some m) counted refl h ordered)
  extract_sorted-Reports m all (a ∷ rest0) (b ∷ rest1) counted h ordered =
      extract_common-Reports m all (a ∷ rest0) (b ∷ rest1) counted _ _ h

  pub counted_of-IsMeasured :
      (s0 s1 : List A) → IsMeasured (counted_of gpu time p corpus plan s0 s1)
  unfolding same_set subset every contains some_of
  counted_of-IsMeasured s0 s1 = record {
    usable = omega arith;
    devices = refl;
    gaps = rw (no_bad_gap (gaps_of (map time s0)), no_bad_gap (gaps_of (map time s1))) refl;
  }

  pub extract_samples-Reports :
      (m : RunRecord) (all : List A) → Reports p (extract_samples gpu time p corpus plan m all)
  unfolding extract_samples contains
  extract_samples-Reports m all =
      let s0 = samples_of gpu time 0 all in
      let s1 = samples_of gpu time 1 all in
      let counted = counted_of gpu time p corpus plan s0 s1 in
      let h = counted_of-IsMeasured s0 s1 in
      Reports-if p (some_of (λ s. not (eqb (gpu s) 0 || eqb (gpu s) 1)) all) _ _
        (λ others.
          (_, refl, excluded-IsReported "missing_required_gpu" (some m) counted refl h refl))
        (λ known. extract_sorted-Reports m all s0 s1 counted h refl)
