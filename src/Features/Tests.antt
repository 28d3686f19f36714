-- ===== src/Features/Tests.antt =====
-- Tests of the coverage gate.
use comm_guard.Prelude.{
  ◌<◌, String, ◌≡◌, refl, none, some, List, [], ◌∷◌, map, ℤ, pos, every, some_of, contains,
  same_set, subset, sorted, distinct, lookup, All, ok, err, validation_error,
}
use comm_guard.Features.Coverage.{
  CoverageRecord, ExtractionResult, validate_status, validate_durations, validate_counts,
  validate_record, valid_run, valid_runs, windows_or_primary, require_primary_coverage,
}
use comm_guard.Features.Coverage.Gate.{HasRuns, require_primary_coverage-HasRuns}

evaluation : Unit {0}
unfolding every some_of contains subset same_set sorted distinct lookup validate_status
    validate_durations validate_counts validate_record valid_run valid_runs require_primary_coverage
evaluation = tt

-- The one window of the examples is 30 s.
abbrev key_of : ℤ → String
key_of n = "30"

abbrev included : CoverageRecord
included = record {
  plan_id = "p0";
  run_id = some "r0";
  workload_family = "f";
  target_label = "x";
  experiment_session_id = "s";
  collection_id = "c";
  corpus_id = "c";
  node_id = "n";
  status = "included";
  reason_code = none;
  rows_per_gpu = ("0", pos 40) ∷ ("1", pos 40) ∷ [];
  common_start = some (pos 1);
  common_end = some (pos 2);
  common_overlap = pos 60000000000;
  configured_warmup = pos 0;
  usable_duration = pos 60000000000;
  requested_windows = pos 30000000000 ∷ [];
  emitted_windows = ("30", pos 2) ∷ [];
  sampling_gaps = ("0", ("max", some (pos 1)) ∷ []) ∷ ("1", ("max", none) ∷ []) ∷ [];
  alignment_tolerance = pos 0;
  aligned_sample_pairs = pos 40;
}

abbrev result : ExtractionResult
result = record {
  coverage = included ∷ [];
  corpus_id = "c";
  requested_windows = pos 30000000000 ∷ [];
  selected_designations = "benign" ∷ [];
}

records :
    (validate_record key_of included ≡ ok tt)
    × (validate_record key_of (record included { usable_duration = pos 60000000002 })
        ≡ err (validation_error "coverage: usable duration exceeds common overlap"))
    × (validate_record key_of (record included { status = "excluded" })
        ≡ err (validation_error "coverage: excluded record requires a supported reason code"))
unfolding evaluation
records = (refl, refl, refl)

abbrev families : List String
families = "f" ∷ []

abbrev covered : List (String × List String)
covered = ("f", "r0" ∷ []) ∷ []

gate-result : require_primary_coverage key_of result families (pos 1) none ≡ ok covered
unfolding evaluation
gate-result = refl

require_primary_coverage-HasRuns_example :
    (0 < 1)
    × (map (λ (e : String × List String). e.0) covered ≡ families)
    × All (HasRuns key_of (windows_or_primary none) result.coverage (pos 1)) covered
require_primary_coverage-HasRuns_example =
    require_primary_coverage-HasRuns key_of result families (pos 1) none covered gate-result
