-- ===== src/Schemas/Manifest.antt =====
-- `RunManifest` of src/commguard/schemas.py. A manifest is the mapping of its keyword arguments, since
-- the class converts none of them; an attribute that is not given has its default.
pub mod Interval
pub mod Strategy
use Prim.Native.String.{◌++◌ as append}
use comm_guard.Prelude.{
  String, Bool, true, false, not, ◌&&◌, ◌||◌, Option, none, some, List, [], ◌∷◌, ◌==◌, pos, every,
  if◌then◌else◌, Exception, validation_error, Result, ok, err, ◌>>=◌, ◌>>◌,
}
use comm_guard.Central.Json.{
  Value, null, bool, int, text, obj, Fields, field, end, get, get_default, truthy, field_names,
}
use comm_guard.Central.Messages.{Python}
use comm_guard.Schemas.Values.{
  Calls, require, require_that, ◌and◌, mapping_of, as_mapping, is_null, is_bool, is_int, is_number,
  is_true, at_least, at_least_zero, is_finite, equals_int, equals_text, member, same_value,
  is_rank_pair, has_both_ranks, utc_timestamp, supported_schema, check_keywords, current_version,
}

abbrev needed_keywords : List String
needed_keywords =
    "run_id" ∷ "workload_name" ∷ "workload_label" ∷ "workload_family" ∷ "designation" ∷ "seed"
    ∷ "world_size" ∷ "config" ∷ "environment" ∷ "environment_fingerprint" ∷ "source_commit"
    ∷ "started_at_utc" ∷ "ended_at_utc" ∷ "warmup_seconds" ∷ "exit_status" ∷ "failure_category"
    ∷ "failure_reason" ∷ "rank_exit_codes" ∷ "nccl_environment" ∷ "participation_valid" ∷ []

abbrev optional_keywords : List String
optional_keywords =
    "experiment_session_id" ∷ "collection_id" ∷ "corpus_id" ∷ "node_id" ∷ "source_dirty"
    ∷ "input_archive_sha256" ∷ "notebook_version" ∷ "random_seed" ∷ "measurement_start_monotonic_ns"
    ∷ "measurement_end_monotonic_ns" ∷ "measured_duration_seconds" ∷ "legacy_grouping_ambiguous"
    ∷ "schema_version" ∷ "artifact_kind" ∷ []

-- The attributes whose default is not `None`.
abbrev pub schema_of : Fields → Value
schema_of m = get_default m "schema_version" (text current_version)

abbrev pub ambiguous_of : Fields → Value
ambiguous_of m = get_default m "legacy_grouping_ambiguous" (bool false)

abbrev pub is_completed : Fields → Bool
is_completed m = equals_text "completed" (get m "exit_status")

-- The checks of every manifest.
unfoldable pub validate_common : Calls → Python → Fields → Result (Unit {0})
validate_common c rt m = do
  supported_schema (schema_of m)
  require (truthy (get m "run_id")) "run_id" "must be non-empty"
  require (truthy (get m "environment_fingerprint")) "environment_fingerprint" "must be non-empty"
  require (truthy (get m "source_commit")) "source_commit" "must be non-empty"
  require_that (at_least_zero (get m "warmup_seconds")) "warmup_seconds" "must be non-negative"
  require (equals_int (pos 2) (get m "world_size")) "world_size"
      "dual-T4 manifests require world size 2"
  require_that (member ("benign" ∷ "adversarial" ∷ "calibration" ∷ []) (get m "designation"))
      "designation" "invalid"
  require_that (member ("completed" ∷ "failed" ∷ "timeout" ∷ []) (get m "exit_status"))
      "exit_status" "invalid"
  utc_timestamp rt (get m "started_at_utc") "started_at_utc"
  utc_timestamp rt (get m "ended_at_utc") "ended_at_utc"
  require_that (has_both_ranks c (get m "rank_exit_codes")) "rank_exit_codes" "both ranks required"
  if is_completed m
      then ok tt
      else require (truthy (get m "failure_reason")) "failure_reason" "required for failed runs"

-- The identity of an unambiguous manifest of the current schema.
unfoldable pub validate_identity : Fields → Result (Unit {0})
validate_identity m = do
  require (truthy (get m "experiment_session_id")) "experiment_session_id" "required"
  require (truthy (get m "collection_id")) "collection_id" "required"
  require (truthy (get m "corpus_id")) "corpus_id" "required"
  require (truthy (get m "node_id")) "node_id" "required"
  require (is_bool (get m "source_dirty")) "source_dirty" "must be a boolean"
  require (same_value (get m "random_seed") (get m "seed")) "random_seed" "must equal seed"

-- The measurement interval of a completed run.
unfoldable pub validate_interval : Calls → Fields → Result (Unit {0})
validate_interval c m = do
  let start = get m "measurement_start_monotonic_ns"
  let stop = get m "measurement_end_monotonic_ns"
  let measured = get m "measured_duration_seconds"
  require (not (is_null start)) "measurement_start_monotonic_ns" "required for a completed v2 run"
  require (not (is_null stop)) "measurement_end_monotonic_ns" "required for a completed v2 run"
  require_that (if is_null measured then ok false else at_least_zero measured)
      "measured_duration_seconds" "must be non-negative"
  require_that (at_least_zero start and at_least stop start) "measurement interval"
      "must be ordered and non-negative"
  require_that (c.is_close measured start stop) "measured_duration_seconds"
      "must equal the monotonic measurement interval"

-- `isinstance(value, int) and value >= 0`
abbrev pub is_count : Value → Result Bool
is_count v = if is_int v then at_least_zero v else ok false

-- `value is None or (isinstance(value, (int, float)) and not isinstance(value, bool) and …)`
abbrev pub is_metric : Value → Result Bool
is_metric v =
    if is_null v
    then ok true
    else if is_number v && not (is_bool v)
    then is_finite v and at_least_zero v
    else ok false

abbrev summary_of : Option Fields → Option Fields
summary_of none = none
summary_of (some evidence) = mapping_of (get evidence "strategy_summary")

-- `_require(isinstance(…, Mapping), …)`, with the mapping
abbrev pub require_mapping : Option Fields → String → String → Result Fields
require_mapping none path message = require false path message >> ok end
require_mapping (some fs) path message = ok fs

module _ (m config : Fields) (path : String) where
  -- The counts of one rank's strategy summary.
  unfoldable pub validate_counts : Fields → Result (Unit {0})
  validate_counts summary = do
    let expected = get summary "expected_sync_rounds"
    let actual = get summary "actual_sync_rounds"
    require_that (is_count expected and is_count actual) path
        "sync counts must be non-negative integers"
    require (same_value expected actual) path "expected and actual sync counts differ"
    require_that (is_count (get summary "communication_bytes_proxy")) path
        "communication byte proxy must be non-negative"
    require_that (is_count (get summary "optimizer_steps")) (append path ".optimizer_steps")
        "must be a non-negative integer"
    require_that (is_count (get summary "inference_steps")) (append path ".inference_steps")
        "must be a non-negative integer"
    require_that (is_count (get summary "processed_tokens")) (append path ".processed_tokens")
        "must be a non-negative integer"

  -- The metrics, the texts and the detector's state.
  unfoldable pub validate_metrics : Fields → Result (Unit {0})
  validate_metrics summary = do
    require_that (is_metric (get summary "throughput_tokens_per_s"))
        (append path ".throughput_tokens_per_s") "must be null or a finite numeric value"
    require_that (is_metric (get summary "final_loss_proxy")) (append path ".final_loss_proxy")
        "must be null or a finite numeric value"
    require_that (is_metric (get summary "detector_score")) (append path ".detector_score")
        "must be null or a finite numeric value"
    let wall = get summary "wall_time_s"
    require_that (if is_number wall then is_finite wall and at_least_zero wall else ok false)
        (append path ".wall_time_s") "must be finite and non-negative"
    require (truthy (get summary "strategy_id")) (append path ".strategy_id") "must be non-empty"
    require (truthy (get summary "communication_proxy_definition"))
        (append path ".communication_proxy_definition") "must be non-empty"
    require (truthy (get summary "detector_score_status")) (append path ".detector_score_status")
        "must be non-empty"
    require (same_value (get summary "strategy_id") (get config "strategy_id"))
        (append path ".strategy_id") "must match run configuration"
    require
        (is_null (get summary "detector_score")
          && (is_null (get summary "detector_model")
              && equals_text "pending_frozen_evaluation" (get summary "detector_score_status")))
        (append path ".detector_score") "run execution cannot invent a detector score"

  abbrev peak_counts : Option Fields → Result Bool
  peak_counts none = ok false
  peak_counts (some peak) =
      is_count (get peak "allocated_bytes") and is_count (get peak "reserved_bytes")

  -- The evidence of one rank: its number of synchronisation rounds.
  unfoldable pub validate_rank : Value → Result Value
  unfolding validate_counts validate_metrics
  validate_rank evidence = do
    summary ←
        require_mapping (summary_of (mapping_of evidence)) path
          "required for completed adversarial runs"
    validate_counts summary
    validate_metrics summary
    rank_fields ← as_mapping evidence
    require_that (peak_counts (mapping_of (get rank_fields "memory_peak")))
        (append path ".memory_peak") "requires non-negative allocated and reserved bytes"
    if equals_text "training" (get m "workload_label")
        then require (is_true (get summary "parameter_state_agreement")) path
            "training strategy requires final parameter agreement"
        else ok tt
    ok (get summary "actual_sync_rounds")

abbrev has_pair : Option Fields → Bool
has_pair none = false
has_pair (some fs) = is_rank_pair (field_names fs)

-- The evidence of a completed adversarial run.
unfoldable pub validate_strategy : Fields → Result (Unit {0})
unfolding validate_rank
validate_strategy m = do
  config ← as_mapping (get m "config")
  let evidence = get config "rank_runtime_evidence"
  require (has_pair (mapping_of evidence)) "config.rank_runtime_evidence"
      "completed adversarial runs require both ranks"
  ranks ← as_mapping evidence
  first ← validate_rank m config "config.rank_runtime_evidence.0.strategy_summary" (get ranks "0")
  second ← validate_rank m config "config.rank_runtime_evidence.1.strategy_summary" (get ranks "1")
  require (same_value first second) "config.rank_runtime_evidence.strategy_summary"
      "ranks reported different sync counts"

-- `self.schema_version == CURRENT_SCHEMA_VERSION and not self.legacy_grouping_ambiguous`
abbrev pub is_explicit : Fields → Bool
is_explicit m = equals_text current_version (schema_of m) && not (truthy (ambiguous_of m))

-- `self.exit_status == "completed" and self.participation_valid`
abbrev pub is_evidence : Fields → Bool
is_evidence m = is_completed m && truthy (get m "participation_valid")

unfoldable pub validate_evidence : Calls → Fields → Result (Unit {0})
unfolding validate_interval validate_strategy
validate_evidence c m = do
  validate_interval c m
  if equals_text "adversarial" (get m "designation") then validate_strategy m else ok tt

unfoldable pub validate_explicit : Calls → Fields → Result (Unit {0})
unfolding validate_identity validate_evidence
validate_explicit c m = do
  validate_identity m
  if is_evidence m then validate_evidence c m else ok tt

-- `RunManifest.validate`
unfoldable pub validate_manifest : Calls → Python → Fields → Result (Unit {0})
unfolding validate_common validate_explicit
validate_manifest c rt m = do
  validate_common c rt m
  if is_explicit m then validate_explicit c m else ok tt

-- `payload.pop(name, None)`
unfoldable pub without : String → Fields → Fields
without name end = end
without name (field k v rest) =
    let others = without name rest in if k == name then others else field k v others

-- `RunManifest.from_dict`
unfoldable pub manifest_from_dict : Calls → Python → Fields → Result Fields
unfolding without validate_manifest
manifest_from_dict c rt fs = do
  let payload = without "source_schema_version" fs
  check_keywords (validation_error "run_manifest: invalid fields") needed_keywords optional_keywords
      payload
  validate_manifest c rt payload
  ok payload
