-- ===== src/Schemas/Artifact.antt =====
-- `validate_artifact` and `load_artifact` of src/commguard/schemas.py. The decoding of a corpus manifest
-- and of a coverage record into the records of `Corpus` and `Features` is an argument.
use comm_guard.Prelude.{
  String, Bool, false, not, ◌&&◌, List, [], ◌∷◌, eqb, ℤ, pos, is_negative, ltz, length, contains,
  distinct, subset, if◌then◌else◌, value_error, type_error, validation_error, Result, ok, err,
  ◌>>=◌, ◌>>◌,
}
use comm_guard.Central.Json.{
  Value, text, arr, Items, nil, cons, Fields, get, get_default, field_names, truthy, is_mapping,
}
use comm_guard.Central.Runtime.{str}
use comm_guard.Central.Messages.{Python}
use comm_guard.Central.Samples.{to_int}
use comm_guard.Corpus.{CorpusManifest, Checks, validate_corpus}
use comm_guard.Features.Coverage.{CoverageRecord, validate_record}
use comm_guard.Schemas.Values.{
  Calls, require, require_that, as_mapping, is_null, is_bool, is_list, is_true, is_false,
  above_zero, equals_int, equals_text, member, hashed_items, utc_timestamp, supported_schema,
  require_fields, current_version,
}
use comm_guard.Schemas.Sample.{sample_from_dict, validate_event}
use comm_guard.Schemas.Manifest.{manifest_from_dict}

-- What the checks take from other places: `float(value)`, the decoding of two kinds of artifacts, the
-- checks of `Corpus` and the format `g` of a window.
pub record Decoders : Type 0 where
  pub calls : Calls
  pub float_of : Value → Result Value
  pub corpus_of : Fields → Result CorpusManifest
  pub corpus_checks : Checks
  pub coverage_of : Fields → Result CoverageRecord
  pub key_of : ℤ → String

-- `ARTIFACT_KINDS`
abbrev pub artifact_kinds : List String
artifact_kinds =
    "environment_report" ∷ "run_manifest" ∷ "telemetry_sample" ∷ "workload_event" ∷ "feature_row"
    ∷ "split_assignment" ∷ "evaluation_result" ∷ "experiment_summary" ∷ "calibration_result"
    ∷ "corpus_manifest" ∷ "coverage_record" ∷ "feature_extraction_result" ∷ []

-- `data.get("schema_version") == CURRENT_SCHEMA_VERSION`
abbrev pub is_current : Fields → Bool
is_current fs = equals_text current_version (get fs "schema_version")

-- `for name in names: _require(bool(data[name]), name, "must be non-empty")`
unfoldable pub require_each : Fields → List String → Result (Unit {0})
require_each fs [] = ok tt
require_each fs (name ∷ rest) = do
  require (truthy (get fs name)) name "must be non-empty"
  require_each fs rest

unfoldable pub validate_current_environment : Fields → Result (Unit {0})
unfolding require_each
validate_current_environment fs = do
  require_fields fs "environment_report" (
      "experiment_session_id" ∷ "node_id" ∷ "environment_fingerprint" ∷ "source_commit"
      ∷ "source_dirty" ∷ [])
  require_each fs
      ("experiment_session_id" ∷ "node_id" ∷ "environment_fingerprint" ∷ "source_commit" ∷ [])
  require (is_bool (get fs "source_dirty")) "source_dirty" "must be a boolean"

unfoldable pub validate_environment : Python → Fields → Result (Unit {0})
unfolding validate_current_environment
validate_environment rt fs = do
  require_fields fs "environment_report"
      ("created_at_utc" ∷ "session_fingerprint" ∷ "gpus" ∷ "readiness" ∷ "strict_ready" ∷ [])
  utc_timestamp rt (text (str rt (get fs "created_at_utc"))) "created_at_utc"
  require (is_list (get fs "gpus")) "gpus" "must be an array"
  require (is_mapping (get fs "readiness")) "readiness" "must be an object"
  require (is_bool (get fs "strict_ready")) "strict_ready" "must be a boolean"
  if is_current fs then validate_current_environment fs else ok tt

-- The `try` that converts `aligned_sample_pairs`, with its handler.
abbrev pairs_of : Result ℤ → Result ℤ
pairs_of (err (value_error s)) =
    err (validation_error "aligned_sample_pairs: must be convertible to int")
pairs_of (err (type_error s)) =
    err (validation_error "aligned_sample_pairs: must be convertible to int")
pairs_of r = r

unfoldable pub validate_current_row : Python → Fields → Result (Unit {0})
unfolding require_each
validate_current_row rt fs = do
  require_fields fs "feature_row" (
      "plan_id" ∷ "experiment_session_id" ∷ "collection_id" ∷ "corpus_id" ∷ "node_id"
      ∷ "source_commit" ∷ "environment_fingerprint" ∷ "workload_config_id" ∷ "aligned_sample_pairs"
      ∷ [])
  require_each fs (
      "plan_id" ∷ "experiment_session_id" ∷ "collection_id" ∷ "corpus_id" ∷ "node_id"
      ∷ "source_commit" ∷ "environment_fingerprint" ∷ "workload_config_id" ∷ [])
  require (not (is_null (get fs "aligned_sample_pairs"))) "aligned_sample_pairs" "must be non-empty"
  pairs ← pairs_of (to_int rt (get fs "aligned_sample_pairs"))
  require (ltz (pos 1) pairs) "aligned_sample_pairs" "too few (must be >= 2)"

unfoldable pub validate_row : Decoders → Python → Fields → Result (Unit {0})
unfolding validate_current_row
validate_row d rt fs = do
  require_fields fs "feature_row" (
      "run_id" ∷ "session_fingerprint" ∷ "target_label" ∷ "workload_family" ∷ "window_seconds"
      ∷ "window_index" ∷ [])
  seconds ← d.float_of (get fs "window_seconds")
  require_that (above_zero seconds) "window_seconds" "must be positive"
  index ← to_int rt (get fs "window_index")
  require (not (is_negative index)) "window_index" "must be non-negative"
  if is_current fs then validate_current_row rt fs else ok tt

unfoldable pub validate_split : Fields → Result (Unit {0})
validate_split fs = do
  require_fields fs "split_assignment" ("run_id" ∷ "split" ∷ [])
  require_that (member ("train" ∷ "validation" ∷ "test" ∷ []) (get fs "split")) "split"
      "must be train, validation, or test"

unfoldable pub validate_current_evaluation : Fields → Result (Unit {0})
validate_current_evaluation fs = do
  require_fields fs "evaluation_result"
      ("primary_communication_only" ∷ "actual_split_strategy" ∷ "split_plan" ∷ "warnings" ∷ [])
  primary ← as_mapping (get fs "primary_communication_only")
  require (equals_int (pos 30) (get primary "window_seconds"))
      "primary_communication_only.window_seconds" "must be 30 seconds"
  plan ← as_mapping (get fs "split_plan")
  require (is_false (get plan "diagnostic_only")) "split_plan.diagnostic_only"
      "primary evaluation cannot use a diagnostic split"

unfoldable pub validate_evaluation : Python → Fields → Result (Unit {0})
unfolding validate_current_evaluation
validate_evaluation rt fs = do
  require_fields fs "evaluation_result"
      ("created_at_utc" ∷ "split_assignments" ∷ "leakage_audit" ∷ "ablations" ∷ [])
  utc_timestamp rt (text (str rt (get fs "created_at_utc"))) "created_at_utc"
  require (is_mapping (get fs "ablations")) "ablations" "must be an object"
  if is_current fs then validate_current_evaluation fs else ok tt

-- The loop over `data["observations"]`.
unfoldable pub validate_observations : Items → Result (Unit {0})
validate_observations nil = ok tt
validate_observations (cons observation rest) = do
  fs ← as_mapping observation
  require_that (member ("idle_baseline" ∷ "collective" ∷ []) (get fs "observation_type"))
      "observations[].observation_type" "must be idle_baseline or collective"
  validate_observations rest

abbrev items_of : Value → Items
items_of (arr xs) = xs
items_of _ = nil

unfoldable pub validate_supported : Fields → Result (Unit {0})
validate_supported fs = do
  require (is_true (get fs "modern_capture_gate_passed")) "modern_capture_gate_passed"
      "supported modern evidence must pass the capture gate"
  require (is_true (get fs "capture_gate_applied")) "capture_gate_applied"
      "supported modern evidence requires an idle-derived gate"
  require (is_true (get fs "idle_baseline_complete")) "idle_baseline_complete"
      "supported modern evidence requires repeated idle observations"

-- The checks of a calibration result of the current schema.
unfoldable pub validate_current_calibration : Fields → Result (Unit {0})
unfolding validate_observations validate_supported
validate_current_calibration fs = do
  require_fields fs "calibration_result" (
      "calibration_contract_version" ∷ "result_state" ∷ "legacy_compatibility_applied"
      ∷ "modern_capture_gate_passed" ∷ "decision_state" ∷ "idle_baseline_repetitions"
      ∷ "idle_baseline_usable_repetitions" ∷ "idle_baseline_complete" ∷ "capture_gate_applied"
      ∷ "capture_threshold_bytes_per_s" ∷ "payload_summaries" ∷ "thresholds"
      ∷ "experiment_session_id" ∷ "collection_id" ∷ "environment_fingerprint" ∷ "source_commit"
      ∷ [])
  require_that
      (member
        ("supported" ∷ "partially_supported" ∷ "inconclusive" ∷ "not_supported" ∷ "failed" ∷ [])
        (get fs "result_state"))
      "result_state" "must be a supported calibration result state"
  require (equals_text "idle-aware-repeated-v2" (get fs "calibration_contract_version"))
      "calibration_contract_version" "must be idle-aware-repeated-v2"
  require (is_false (get fs "legacy_compatibility_applied")) "legacy_compatibility_applied"
      "new evidence cannot use legacy compatibility"
  require_that (member ("passed" ∷ "inconclusive" ∷ "failed" ∷ []) (get fs "decision_state"))
      "decision_state" "must be passed, inconclusive, or failed"
  validate_observations (items_of (get fs "observations"))
  if equals_text "supported" (get fs "status") then validate_supported fs else ok tt

unfoldable pub validate_calibration : Fields → Result (Unit {0})
unfolding validate_current_calibration
validate_calibration fs = do
  require_fields fs "calibration_result" ("status" ∷ "observations" ∷ "falsification_reasons" ∷ [])
  require_that
      (member ("supported" ∷ "partially_supported" ∷ "not_supported" ∷ []) (get fs "status"))
      "status" "must be supported, partially_supported, or not_supported"
  require (is_list (get fs "observations")) "observations" "must be an array"
  if is_current fs then validate_current_calibration fs else ok tt

-- The condition on `selected_designations`.
abbrev selection_of : Value → Result Bool
selection_of (arr nil) = ok false
selection_of (arr xs) = hashed_items xs >>= λ names. ok (
    eqb (length names) (length (distinct names))
    && subset names ("benign" ∷ "adversarial" ∷ "calibration" ∷ []))
selection_of _ = ok false

unfoldable pub validate_extraction : Fields → Result (Unit {0})
validate_extraction fs = do
  require_fields fs "feature_extraction_result" (
      "corpus_id" ∷ "selection_mode" ∷ "requested_window_seconds" ∷ "planned_run_count"
      ∷ "included_run_count" ∷ "excluded_run_count" ∷ "feature_row_count" ∷ "reason_counts"
      ∷ "window_policy" ∷ [])
  require (equals_text "declared_corpus_manifest" (get fs "selection_mode")) "selection_mode"
      "implicit selection is prohibited"
  if contains (field_names fs) "selected_designations"
      then require_that (selection_of (get fs "selected_designations")) "selected_designations"
          "must be a non-empty unique supported list"
      else ok tt

-- The result of a conversion is not used.
abbrev checked {ℓ} : {A : Type ℓ} → Result A → Result (Unit {0})
checked r = r >>= λ _. ok tt

-- The cascade over the kinds.
unfoldable pub validate_kind : Decoders → Python → Value → Fields → Result (Unit {0})
unfolding validate_environment validate_row validate_split validate_evaluation validate_calibration
    validate_extraction
validate_kind d rt kind fs =
    if equals_text "telemetry_sample" kind
    then checked (sample_from_dict d.calls rt fs)
    else if equals_text "run_manifest" kind
    then checked (manifest_from_dict d.calls rt fs)
    else if equals_text "workload_event" kind
    then validate_event rt fs
    else if equals_text "environment_report" kind
    then validate_environment rt fs
    else if equals_text "feature_row" kind
    then validate_row d rt fs
    else if equals_text "split_assignment" kind
    then validate_split fs
    else if equals_text "evaluation_result" kind
    then validate_evaluation rt fs
    else if equals_text "calibration_result" kind
    then validate_calibration fs
    else if equals_text "experiment_summary" kind
    then require_fields fs "experiment_summary" ("summary_type" ∷ [])
    else if equals_text "corpus_manifest" kind
    then (d.corpus_of fs >>= validate_corpus d.corpus_checks)
    else if equals_text "coverage_record" kind
    then (d.coverage_of fs >>= validate_record d.key_of)
    else validate_extraction fs

-- `validate_artifact`
unfoldable pub validate_artifact : Decoders → Python → Fields → Result (Unit {0})
unfolding validate_kind
validate_artifact d rt fs = do
  let kind = get fs "artifact_kind"
  require_that (member artifact_kinds kind) "artifact_kind" "unknown kind"
  supported_schema (text (str rt (get_default fs "schema_version" (text ""))))
  validate_kind d rt kind fs
