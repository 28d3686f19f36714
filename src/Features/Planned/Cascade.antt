-- ===== src/Features/Planned/Cascade.antt =====
-- The checks of `_extract_planned_run` in their order, and the loop over the planned runs.
use comm_guard.Prelude.{
  ℕ, ◌+◌, ◌-◌, max, min, String, Bool, false, not, ◌&&◌, ◌||◌, Option, none, some, List, [], ◌∷◌,
  ◌++◌, map, ◌==◌, eqb, ℤ, pos, is_negative, leb, ltb, length, is_empty, keep, some_of, contains,
  distinct, if◌then◌else◌, Exception, value_error, Result, ok, err, ◌>>=◌, ◌>>◌, raise_if,
}
use comm_guard.Corpus.{PlannedRun, CorpusManifest, allows, designations}
use comm_guard.Features.Alignment.{align_samples_by_timestamp}
use comm_guard.Features.Coverage.{CoverageRecord, ExtractionResult, make_result}
use comm_guard.Features.Extraction.{Window, Options, extract_run_features, samples_of, last_time}
use comm_guard.Features.Planned.{
  RunRecord, ManifestFile, missing, unreadable, loaded, TelemetryFile, absent, refused, samples,
  Policy, Measured, unmeasured, no_gaps, record_of, excluded_record, emitted_counts, smallest,
  differs,
}

abbrev pub Outcome : Type 0
Outcome = List Window × CoverageRecord

-- The differences of consecutive times.
unfoldable pub gaps_of : List ℕ → List ℕ
gaps_of [] = []
gaps_of (t ∷ []) = []
gaps_of (t ∷ u ∷ rest) = (u - t) ∷ gaps_of (u ∷ rest)

abbrev smallest_gap : List ℕ → ℕ
smallest_gap [] = 0
smallest_gap (g ∷ []) = g
smallest_gap (g ∷ gs) = min g (smallest_gap gs)

abbrev largest_gap : List ℕ → ℕ
largest_gap [] = 0
largest_gap (g ∷ gs) = max g (largest_gap gs)

abbrev pub gap_entry : List ℕ → List (String × Option ℤ)
gap_entry [] = no_gaps
gap_entry (g ∷ gs) =
    ("interval_count", some (pos (length (g ∷ gs))))
    ∷ ("minimum", some (pos (smallest_gap (g ∷ gs))))
    ∷ ("maximum", some (pos (largest_gap (g ∷ gs))))
    ∷ []

-- The options that are passed on to `extract_run_features`.
abbrev pub options_of : Policy → RunRecord → Options
options_of p m = record {
  window_lengths = map (λ w. pos w) p.windows;
  stride_fraction = p.stride_fraction;
  exclude_startup = p.exclude_startup;
  alignment_tolerance = p.tolerance;
  measurement_start = m.measurement_start;
  measurement_end = m.measurement_end;
  warmup = m.warmup;
}

abbrev pub usable_start : Policy → RunRecord → ℕ → ℕ
usable_start p m common =
    if p.exclude_startup
    then elim m.measurement_start [ none ↦ common + m.warmup | some t ↦ max common t ]
    else common

abbrev pub usable_end : Policy → RunRecord → ℕ → ℕ
usable_end p m common =
    if p.exclude_startup
    then elim m.measurement_end [ none ↦ common | some t ↦ min common t ]
    else common

module _ {ℓ} {A : Type ℓ} (gpu time : A → ℕ) (p : Policy) (corpus : CorpusManifest)
    (plan : PlannedRun) where
  -- `_sampling_gap_stats`
  abbrev pub sampling_gap_stats : List A → List A → List (String × List (String × Option ℤ))
  sampling_gap_stats s0 s1 =
      ("0", gap_entry (gaps_of (map time s0))) ∷ ("1", gap_entry (gaps_of (map time s1))) ∷ []

  abbrev pub excluded : String → Option RunRecord → Measured → Outcome
  excluded reason manifest m = ([], excluded_record corpus plan p reason manifest m)

  -- The `try` around `extract_run_features`, and the record of an included run.
  unfoldable pub finish : RunRecord → Measured → Result (List Window) → Outcome
  unfolding excluded_record record_of
  finish m measured (err e) = excluded "feature_error" (some m) measured
  finish m measured (ok []) = excluded "insufficient_samples" (some m) measured
  finish m measured (ok (r ∷ rs)) =
      let rows = r ∷ rs in
      (
        rows,
        record_of corpus plan p "included" none (if p.exclude_startup then m.warmup else 0)
            (emitted_counts p rows) measured,
      )

  -- From the usable interval on.
  unfoldable pub extract_usable :
      RunRecord → List A → List A → List A → Measured → (start stop : ℕ) → Result Outcome
  unfolding finish
  extract_usable m all s0 s1 measured start stop =
      let in_interval : A → Bool = λ s. leb start (time s) && leb (time s) stop in
      align_samples_by_timestamp time (keep in_interval s0) (keep in_interval s1) p.tolerance
      >>= λ pairs.
          let counted : Measured = record measured { pairs = length pairs } in
          if ltb (length pairs) 2
          then ok (excluded "insufficient_samples" (some m) counted)
          else ok (finish m counted (extract_run_features gpu time (options_of p m) all))

  -- From the common interval on.
  unfoldable pub extract_common :
      RunRecord → List A → List A → List A → Measured → (first last : ℕ) → Result Outcome
  unfolding extract_usable
  extract_common m all s0 s1 counted first last =
      let start = usable_start p m first in
      let stop = usable_end p m last in
      let common : Measured = record counted { common = some (first, last) } in
      let measured : Measured = record common { overlap = last - first; usable = stop - start } in
      if leb last first
      then ok (excluded "no_common_interval" (some m) common)
      else if ltb (stop - start) (smallest p.windows)
      then ok (excluded "post_warmup_interval_too_short" (some m) measured)
      else extract_usable m all s0 s1 measured start stop

  abbrev pub extract_sorted : RunRecord → List A → List A → List A → Measured → Result Outcome
  extract_sorted m all (a ∷ rest0) (b ∷ rest1) counted =
      extract_common m all (a ∷ rest0) (b ∷ rest1) counted (max (time a) (time b))
        (min (last_time gpu time (time a) rest0) (last_time gpu time (time b) rest1))
  extract_sorted m all _ _ counted = ok (excluded "missing_required_gpu" (some m) counted)

  -- What is counted before the common interval is known.
  abbrev pub counted_of : List A → List A → Measured
  counted_of s0 s1 = record unmeasured {
    rows0 = length s0;
    rows1 = length s1;
    gaps = sampling_gap_stats s0 s1;
  }

  -- From the samples on.
  unfoldable pub extract_samples : RunRecord → List A → Result Outcome
  unfolding extract_common gaps_of
  extract_samples m all =
      let s0 = samples_of gpu time 0 all in
      let s1 = samples_of gpu time 1 all in
      let counted = counted_of s0 s1 in
      if some_of (λ s. not (eqb (gpu s) 0 || eqb (gpu s) 1)) all
      then ok (excluded "missing_required_gpu" (some m) counted)
      else extract_sorted m all s0 s1 counted

  -- `except ValidationError`, on the load of the telemetry
  abbrev pub extract_telemetry : RunRecord → TelemetryFile A → Result Outcome
  extract_telemetry m absent = ok (excluded "missing_telemetry" (some m) unmeasured)
  extract_telemetry m (refused (Exception.validation_error message)) = ok (
      excluded
        (if p.mentions_version message then "unsupported_telemetry_schema" else "feature_error")
        (some m) unmeasured)
  extract_telemetry m (refused other) = err other
  extract_telemetry m (samples all) = extract_samples m all

  -- The checks of the manifest.
  unfoldable pub extract_loaded : RunRecord → TelemetryFile A → Result Outcome
  unfolding extract_samples
  extract_loaded m telemetry =
      if differs m.corpus_id corpus.corpus_id
      then ok (excluded "not_in_selected_corpus" (some m) unmeasured)
      else if not (m.exit_status == "completed")
      then ok (excluded "incomplete_run" (some m) unmeasured)
      else if not m.participation_valid
      then ok (excluded "participation_invalid" (some m) unmeasured)
      else if not (m.workload_family == plan.workload_family)
          || not (m.workload_label == plan.target_label)
      then ok (excluded "invalid_manifest" (some m) unmeasured)
      else extract_telemetry m telemetry

  abbrev pub extract_manifest : ManifestFile → TelemetryFile A → Result Outcome
  extract_manifest missing telemetry = ok (excluded "incomplete_run" none unmeasured)
  extract_manifest (unreadable e) telemetry = ok (excluded "invalid_manifest" none unmeasured)
  extract_manifest (loaded m) telemetry = extract_loaded m telemetry

  abbrev pub extract_accepted : Option String → ManifestFile → TelemetryFile A → Result Outcome
  extract_accepted none manifest telemetry = ok (excluded "incomplete_run" none unmeasured)
  extract_accepted (some run_id) manifest telemetry =
      if not (contains p.selected_designations plan.designation)
      then ok (
          excluded
            (if plan.designation == "calibration"
              then "calibration_run_excluded"
              else "not_in_selected_corpus")
            none unmeasured)
      else if not (allows corpus run_id plan.designation)
      then ok (excluded "not_in_selected_corpus" none unmeasured)
      else extract_manifest manifest telemetry

  -- `_extract_planned_run`
  unfoldable pub extract_planned_run : ManifestFile → TelemetryFile A → Result Outcome
  unfolding extract_loaded
  extract_planned_run manifest telemetry = extract_accepted plan.accepted_run_id manifest telemetry

-- The loop over the planned runs: the records in their order, and all rows.
unfoldable pub extract_runs {ℓ} :
    {A : Type ℓ}
    → (A → ℕ)
    → (A → ℕ)
    → Policy
    → CorpusManifest
    → (PlannedRun → ManifestFile)
    → (PlannedRun → TelemetryFile A)
    → List PlannedRun
    → Result (List Window × List CoverageRecord)
unfolding extract_planned_run
extract_runs gpu time p corpus manifest telemetry [] = ok ([], [])
extract_runs gpu time p corpus manifest telemetry (plan ∷ rest) = do
  outcome ← extract_planned_run gpu time p corpus plan (manifest plan) (telemetry plan)
  others ← extract_runs gpu time p corpus manifest telemetry rest
  ok (outcome.0 ++ others.0, outcome.1 ∷ others.1)

-- `len(windows) != len(set(windows))`
unfoldable pub has_repeat : List ℕ → Bool
unfolding some_of
has_repeat [] = false
has_repeat (w ∷ rest) = some_of (eqb w) rest || has_repeat rest

-- `extract_feature_result`, without writing the result to a store. The window lengths are
-- natural numbers.
unfoldable pub extract_feature_result {ℓ} :
    {A : Type ℓ}
    → (A → ℕ)
    → (A → ℕ)
    → Policy
    → CorpusManifest
    → (PlannedRun → ManifestFile)
    → (PlannedRun → TelemetryFile A)
    → Result (List Window × ExtractionResult)
unfolding extract_runs has_repeat
extract_feature_result gpu time p corpus manifest telemetry = do
  raise_if (is_empty p.windows || some_of (λ w. eqb w 0) p.windows)
      (value_error "window lengths must be positive")
  raise_if (has_repeat p.windows) (value_error "window lengths must be unique")
  raise_if (is_negative p.tolerance) (value_error "alignment_tolerance_seconds cannot be negative")
  raise_if
      (is_empty p.selected_designations
        || not (eqb (length p.selected_designations) (length (distinct p.selected_designations))))
      (value_error "selected designations must be non-empty and unique")
  raise_if (some_of (λ d. not (contains designations d)) p.selected_designations)
      (value_error "unknown selected designations")
  found ← extract_runs gpu time p corpus manifest telemetry corpus.planned_runs
  result ← make_result p.key_of (record {
    coverage = found.1;
    corpus_id = corpus.corpus_id;
    requested_windows = map (λ w. pos w) p.windows;
    selected_designations = p.selected_designations;
  })
  ok (found.0, result)
