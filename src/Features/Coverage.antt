-- ===== src/Features/Coverage.antt =====
-- src/commguard/features/coverage.py: coverage records, extraction results and the primary gate.
-- Durations are whole nanoseconds, so that the tolerance 1e-9 s is one of them.
pub mod Gate
use comm_guard.Prelude.{
  ℕ, ◌+◌, String, Bool, true, false, not, ◌&&◌, ◌||◌, Option, none, some, List, [], ◌∷◌, map, ◌==◌,
  eqb, ℤ, pos, is_negative, is_zero, ltz, eq_z, next_z, to_nat, ltb, length, is_empty, keep, every,
  some_of, contains, same_set, sorted, distinct, lookup, keys, is_some, non_empty, if◌then◌else◌,
  Exception, value_error, validation_error, coverage_error, Result, ok, err, ◌>>=◌, ◌>>◌, raise_if,
}

-- `REQUIRED_REASON_CODES`
abbrev pub reason_codes : List String
reason_codes =
    "not_in_selected_corpus" ∷ "invalid_manifest" ∷ "incomplete_run" ∷ "participation_invalid"
    ∷ "calibration_run_excluded" ∷ "missing_telemetry" ∷ "missing_required_gpu"
    ∷ "no_common_interval" ∷ "post_warmup_interval_too_short" ∷ "insufficient_samples"
    ∷ "unsupported_telemetry_schema" ∷ "no_common_window_length" ∷ "feature_error" ∷ []

-- A record, without the texts that are only copied.
pub record CoverageRecord : Type 0 where
  pub plan_id : String
  pub run_id : Option String
  pub workload_family : String
  pub target_label : String
  pub experiment_session_id : String
  pub collection_id : String
  pub corpus_id : String
  pub node_id : String
  pub status : String
  pub reason_code : Option String
  pub rows_per_gpu : List (String × ℤ)
  pub common_start : Option ℤ
  pub common_end : Option ℤ
  pub common_overlap : ℤ
  pub configured_warmup : ℤ
  pub usable_duration : ℤ
  pub requested_windows : List ℤ
  pub emitted_windows : List (String × ℤ)
  pub sampling_gaps : List (String × List (String × Option ℤ))
  pub alignment_tolerance : ℤ
  pub aligned_sample_pairs : ℤ

abbrev pub has_bad_count : List (String × ℤ) → Bool
has_bad_count counts = some_of (λ e. is_negative e.1) counts

-- `value is not None and value < 0`
abbrev pub is_bad_gap : Option ℤ → Bool
is_bad_gap none = false
is_bad_gap (some n) = is_negative n

abbrev pub reversed : Option ℤ → Option ℤ → Bool
reversed (some start) (some stop) = ltz stop start
reversed _ _ = false

-- `reason_code not in REQUIRED_REASON_CODES`
abbrev pub unsupported_reason : Option String → Bool
unsupported_reason none = true
unsupported_reason (some s) = not (contains reason_codes s)

abbrev pub differ : Bool → Bool → Bool
differ true b = not b
differ false b = b

-- The checks of the identity, the status and the reason.
unfoldable pub validate_status : CoverageRecord → Result (Unit {0})
validate_status r = do
  raise_if
      (not (
        every non_empty (
          r.plan_id ∷ r.workload_family ∷ r.target_label ∷ r.experiment_session_id ∷ r.collection_id
          ∷ r.corpus_id ∷ r.node_id ∷ [])))
      (validation_error "coverage record missing context")
  raise_if (not (r.status == "included" || r.status == "excluded"))
      (validation_error "coverage: invalid status")
  raise_if (r.status == "included" && is_some r.reason_code)
      (validation_error "coverage: included record cannot have a reason")
  raise_if (r.status == "excluded" && unsupported_reason r.reason_code)
      (validation_error "coverage: excluded record requires a supported reason code")

-- The checks of the durations.
unfoldable pub validate_durations : CoverageRecord → Result (Unit {0})
validate_durations r = do
  raise_if
      (is_empty r.requested_windows
        || some_of (λ w. is_negative w || is_zero w) r.requested_windows)
      (validation_error "coverage: requested windows must be positive")
  raise_if (is_negative r.common_overlap || is_negative r.usable_duration)
      (validation_error "coverage: durations cannot be negative")
  raise_if (ltz (next_z r.common_overlap) r.usable_duration)
      (validation_error "coverage: usable duration exceeds common overlap")
  raise_if (is_negative r.configured_warmup || is_negative r.alignment_tolerance)
      (validation_error "coverage: configuration cannot be negative")

-- The checks of the counts, the gaps and the common interval; `key_of` is the format `g` of a window.
unfoldable pub validate_counts : (ℤ → String) → CoverageRecord → Result (Unit {0})
validate_counts key_of r = do
  raise_if (not (same_set (keys r.rows_per_gpu) ("0" ∷ "1" ∷ [])) || has_bad_count r.rows_per_gpu)
      (validation_error "coverage: rows_per_gpu requires non-negative GPU 0/1 counts")
  raise_if
      (not (same_set (keys r.emitted_windows) (map key_of r.requested_windows))
        || has_bad_count r.emitted_windows)
      (validation_error "coverage: emitted windows must match requested windows")
  raise_if (not (same_set (keys r.sampling_gaps) ("0" ∷ "1" ∷ [])))
      (validation_error "coverage: sampling gaps require GPU 0 and GPU 1")
  raise_if (some_of (λ gpu. some_of (λ e. is_bad_gap e.1) gpu.1) r.sampling_gaps)
      (validation_error "coverage: sampling gap is negative")
  raise_if (is_negative r.aligned_sample_pairs)
      (validation_error "coverage: aligned sample pairs cannot be negative")
  raise_if (differ (is_some r.common_start) (is_some r.common_end))
      (validation_error "coverage: common interval endpoints must appear together")
  raise_if (reversed r.common_start r.common_end)
      (validation_error "coverage: common interval is reversed")

-- `CoverageRecord.validate`
unfoldable pub validate_record : (ℤ → String) → CoverageRecord → Result (Unit {0})
unfolding validate_status validate_durations validate_counts
validate_record key_of r = do validate_status r; validate_durations r; validate_counts key_of r

pub record ExtractionResult : Type 0 where
  pub coverage : List CoverageRecord
  pub corpus_id : String
  pub requested_windows : List ℤ
  pub selected_designations : List String

abbrev same_windows : List ℤ → List ℤ → Bool
same_windows [] [] = true
same_windows (x ∷ xs) (y ∷ ys) = eq_z x y && same_windows xs ys
same_windows _ _ = false

unfoldable pub validate_records : (ℤ → String) → List CoverageRecord → Result (Unit {0})
unfolding validate_record
validate_records key_of [] = ok tt
validate_records key_of (r ∷ rest) = do validate_record key_of r; validate_records key_of rest

-- `len(values) != len(set(values))`
abbrev has_duplicates : List String → Bool
has_duplicates xs = not (eqb (length xs) (length (distinct xs)))

-- `ExtractionResult.__post_init__`
unfoldable pub make_result : (ℤ → String) → ExtractionResult → Result ExtractionResult
unfolding validate_records
make_result key_of x = do
  validate_records key_of x.coverage
  raise_if (has_duplicates (map (λ r. r.plan_id) x.coverage))
      (validation_error "coverage result must contain one record per unique plan ID")
  raise_if (some_of (λ r. not (r.corpus_id == x.corpus_id)) x.coverage)
      (validation_error "coverage result contains a different corpus ID")
  raise_if (some_of (λ r. not (same_windows r.requested_windows x.requested_windows)) x.coverage)
      (validation_error "coverage result contains a different requested-window policy")
  raise_if
      (is_empty x.selected_designations
        || (has_duplicates x.selected_designations
            || some_of (λ d. not (contains ("benign" ∷ "adversarial" ∷ "calibration" ∷ []) d))
                x.selected_designations))
      (validation_error "coverage result has invalid selected designations")
  ok x

-- `emitted_windows.get(key, 0) > 0`
abbrev emitted : (ℤ → String) → CoverageRecord → ℤ → Bool
emitted key_of r window = elim (lookup (key_of window) r.emitted_windows) [
  | none ↦ false
  | some n ↦ ltz (pos 0) n
]

-- The test of one record: the run it adds to its family.
unfoldable pub valid_run : (ℤ → String) → List ℤ → CoverageRecord → Option String
unfolding every
valid_run key_of windows r =
    if r.status == "included" && every (emitted key_of r) windows then r.run_id else none

-- `valid_by_family[family]`
unfoldable pub valid_runs : (ℤ → String) → List ℤ → List CoverageRecord → String → List String
unfolding valid_run
valid_runs key_of windows [] family = []
valid_runs key_of windows (r ∷ rest) family =
    let others = valid_runs key_of windows rest family in
    if r.workload_family == family
    then elim (valid_run key_of windows r) [ none ↦ others | some id ↦ id ∷ others ]
    else others

-- `required_window_seconds or PRIMARY_WINDOW_SECONDS`
abbrev pub windows_or_primary : Option (List ℤ) → List ℤ
windows_or_primary (some (w ∷ ws)) = w ∷ ws
windows_or_primary _ = pos 30000000000 ∷ []

-- `require_primary_coverage`: the valid runs of each required family.
unfoldable pub require_primary_coverage :
    (ℤ → String)
    → ExtractionResult
    → List String
    → ℤ
    → Option (List ℤ)
    → Result (List (String × List String))
unfolding valid_runs
require_primary_coverage key_of x families minimum required = do
  raise_if (ltz minimum (pos 1)) (value_error "minimum_runs_per_family must be at least one")
  let windows = windows_or_primary required
  raise_if
      (some_of
        (λ family. ltb (length (valid_runs key_of windows x.coverage family)) (to_nat minimum))
        families)
      (coverage_error "primary coverage incomplete")
  ok (map (λ family. (family, sorted (valid_runs key_of windows x.coverage family))) families)
