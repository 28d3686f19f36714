-- ===== src/Features/Planned.antt =====
-- `_extract_planned_run` and `extract_feature_result` of src/commguard/features/extraction.py. What the
-- files of a run hold is an argument; of a manifest, the fields that are read, with their types. A loaded
-- line of telemetry of another artifact kind, on which `int(sample["gpu_index"])` raises, and a
-- loaded manifest whose fields have other types, as a `measured_start_ns` that is no integer or a
-- `corpus_id` that is a list, are not modelled; the exceptions they raise are not caught. Of the sampling gaps
-- the median and the 95th percentile are left out.
pub mod Cascade
pub mod Disjoint
pub mod Measuring
pub mod Reported
pub mod Tests
pub mod Valid
use comm_guard.Prelude.{
  ℕ, zero, suc, ◌+◌, ◌-◌, max, min, String, Bool, true, false, not, ◌&&◌, ◌||◌, Option, none, some,
  List, [], ◌∷◌, ◌++◌, map, ◌==◌, ℤ, pos, negsuc, is_negative, is_zero, to_nat, leb, ltb, eqb,
  length, is_empty, keep, every, some_of, contains, distinct, if◌then◌else◌, Exception, value_error,
  validation_error, Result, ok, err, ◌>>=◌, ◌>>◌, raise_if,
}
use comm_guard.Corpus.{PlannedRun, CorpusManifest, allows, designations}
use comm_guard.Features.Alignment.{sort_by, align_samples_by_timestamp}
use comm_guard.Features.Coverage.{CoverageRecord, ExtractionResult, make_result}
use comm_guard.Features.Extraction.{Window, Options, extract_run_features, samples_of, last_time}

-- What is read of the manifest of a run.
pub record RunRecord : Type 0 where
  pub corpus_id : Option String
  pub exit_status : String
  pub participation_valid : Bool
  pub workload_family : String
  pub workload_label : String
  pub warmup : ℕ
  pub measurement_start : Option ℕ
  pub measurement_end : Option ℕ

-- `manifest.json`: not there, refused by `load_artifact`, or loaded.
pub data ManifestFile : Type 0 where
  missing : ManifestFile
  unreadable : Exception → ManifestFile
  loaded : RunRecord → ManifestFile

-- `telemetry.jsonl`
pub data TelemetryFile {ℓ} (A : Type ℓ) : Type ℓ where
  absent : TelemetryFile A
  refused : Exception → TelemetryFile A
  samples : List A → TelemetryFile A

-- The arguments of the extraction. `key_of` is the format `g` of a window, `mentions_version` the test
-- for "unsupported version" in a message.
pub record Policy : Type 0 where
  pub windows : List ℕ
  pub stride_fraction : ℤ
  pub exclude_startup : Bool
  pub tolerance : ℤ
  pub selected_designations : List String
  pub key_of : ℤ → String
  pub mentions_version : String → Bool

-- What was measured before a run is excluded; each part has the default of `_excluded_record`.
pub record Measured : Type 0 where
  pub rows0 : ℕ
  pub rows1 : ℕ
  pub common : Option (ℕ × ℕ)
  pub overlap : ℕ
  pub usable : ℕ
  pub pairs : ℕ
  pub gaps : List (String × List (String × Option ℤ))

-- The gaps of one device.
abbrev no_gaps : List (String × Option ℤ)
no_gaps = ("interval_count", some (pos 0)) ∷ ("minimum", none) ∷ ("maximum", none) ∷ []

-- `_empty_sampling_gap_stats`
abbrev pub empty_sampling_gap_stats : List (String × List (String × Option ℤ))
empty_sampling_gap_stats = ("0", no_gaps) ∷ ("1", no_gaps) ∷ []

abbrev pub unmeasured : Measured
unmeasured = record {
  rows0 = 0;
  rows1 = 0;
  common = none;
  overlap = 0;
  usable = 0;
  pairs = 0;
  gaps = empty_sampling_gap_stats;
}

abbrev warmup_of : Option RunRecord → ℕ
warmup_of none = 0
warmup_of (some m) = m.warmup

abbrev start_z : Option (ℕ × ℕ) → Option ℤ
start_z none = none
start_z (some (a, b)) = some (pos a)

abbrev end_z : Option (ℕ × ℕ) → Option ℤ
end_z none = none
end_z (some (a, b)) = some (pos b)

-- The record of a run; the status, the reason and the emitted windows vary.
unfoldable pub record_of :
    CorpusManifest
    → PlannedRun
    → Policy
    → String
    → Option String
    → ℕ
    → List (String × ℤ)
    → Measured
    → CoverageRecord
record_of corpus plan p status reason warmup emitted m = record {
  plan_id = plan.plan_id;
  run_id = plan.accepted_run_id;
  workload_family = plan.workload_family;
  target_label = plan.target_label;
  experiment_session_id = corpus.experiment_session_id;
  collection_id = corpus.collection_id;
  corpus_id = corpus.corpus_id;
  node_id = corpus.node_id;
  status = status;
  reason_code = reason;
  rows_per_gpu = ("0", pos m.rows0) ∷ ("1", pos m.rows1) ∷ [];
  common_start = start_z m.common;
  common_end = end_z m.common;
  common_overlap = pos m.overlap;
  configured_warmup = pos warmup;
  usable_duration = pos m.usable;
  requested_windows = map (λ w. pos w) p.windows;
  emitted_windows = emitted;
  sampling_gaps = m.gaps;
  alignment_tolerance = p.tolerance;
  aligned_sample_pairs = pos m.pairs;
}

-- `{f"{window:g}": 0 for window in windows}`
abbrev pub no_windows : Policy → List (String × ℤ)
no_windows p = map (λ w. (p.key_of (pos w), pos 0)) p.windows

-- `_excluded_record`
unfoldable pub excluded_record :
    CorpusManifest → PlannedRun → Policy → String → Option RunRecord → Measured → CoverageRecord
unfolding record_of
excluded_record corpus plan p reason manifest m =
    record_of corpus plan p "excluded" (some reason) (warmup_of manifest) (no_windows p) m

-- `Counter(…)`, read at the requested windows
abbrev pub emitted_counts : Policy → List Window → List (String × ℤ)
emitted_counts p rows =
    map
      (λ w. (
        p.key_of (pos w),
        pos (length (keep (λ r. p.key_of (pos r.window_seconds) == p.key_of (pos w)) rows)),
      ))
      p.windows

-- `min(windows)`
abbrev pub smallest : List ℕ → ℕ
smallest [] = 0
smallest (w ∷ []) = w
smallest (w ∷ rest) = min w (smallest rest)

abbrev differs : Option String → String → Bool
differs none s = false
differs (some t) s = not (t == s)
