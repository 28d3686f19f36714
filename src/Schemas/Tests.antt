-- ===== src/Schemas/Tests.antt =====
-- Runs of the record models of src/commguard/schemas.py on concrete records.
use comm_guard.Prelude.{
  ◌≡◌, refl, ℕ, String, true, false, [], ◌∷◌, pos, ltz, is_negative, map, contains, same_set,
  type_error, ok, err,
}
use comm_guard.Central.Json.{
  Value, bool, int, text, obj, Fields, end, field, get, truthy, field_names,
}
use comm_guard.Central.Examples.{toy}
use comm_guard.Central.Runtime.{str}
use comm_guard.Schemas.Values.{
  Calls, same_value, current_version, legacy_version, member, at_least, equals_int, utc_timestamp,
  has_both_ranks, is_finite,
}
use comm_guard.Central.Samples.{float_unit, float_limit}
use comm_guard.Schemas.Manifest.{validate_manifest}
use comm_guard.Schemas.Manifest.Interval.{validate_manifest-interval}
use comm_guard.Schemas.Manifest.Strategy.{IsSummary, validate_manifest-strategy}
use comm_guard.Schemas.Migration.{migrate}
use comm_guard.Schemas.Migration.Legacy.{migrate_twice}
use comm_guard.Evaluation.Groups.{RunGroup, Groups, run_groups}
use comm_guard.Evaluation.Rows.{row_from_dict}

-- Values of which only mappings are converted; every measured duration is close.
abbrev calls : Calls
calls = record {
  dict_of = λ v. err (type_error "not a mapping");
  characters = λ s. [];
  is_close = λ measured start stop. ok true;
}

abbrev count : ℕ → Value
count n = int (pos n)

abbrev summary : Fields
summary = field "expected_sync_rounds" (count 4) (
    field "actual_sync_rounds" (count 4) (
      field "communication_bytes_proxy" (count 100) (
        field "optimizer_steps" (count 4) (
          field "inference_steps" (count 0) (
            field "processed_tokens" (count 64) (
              field "wall_time_s" (count 2) (
                field "strategy_id" (text "quiet") (
                  field "communication_proxy_definition" (text "bytes") (
                    field "detector_score_status" (text "pending_frozen_evaluation")
                      (field "parameter_state_agreement" (bool true) end))))))))))

abbrev evidence : Value
evidence = obj (
    field "strategy_summary" (obj summary) (
      field "memory_peak"
        (obj (field "allocated_bytes" (count 10) (field "reserved_bytes" (count 20) end))) end))

abbrev ranks : Fields
ranks = field "0" evidence (field "1" evidence end)

abbrev config : Fields
config = field "strategy_id" (text "quiet") (field "rank_runtime_evidence" (obj ranks) end)

abbrev manifest : Fields
manifest = field "run_id" (text "run-1") (
    field "environment_fingerprint" (text "env") (
      field "source_commit" (text "c0") (
        field "warmup_seconds" (count 1) (
          field "world_size" (count 2) (
            field "designation" (text "adversarial") (
              field "exit_status" (text "completed") (
                field "started_at_utc" (text "now") (
                  field "ended_at_utc" (text "now") (
                    field "rank_exit_codes" (obj (field "0" (count 0) (field "1" (count 0) end))) (
                      field "participation_valid" (bool true) (
                        field "experiment_session_id" (text "session") (
                          field "collection_id" (text "collection") (
                            field "corpus_id" (text "corpus") (
                              field "node_id" (text "node") (
                                field "source_dirty" (bool false) (
                                  field "seed" (count 7) (
                                    field "random_seed" (count 7) (
                                      field "measurement_start_monotonic_ns" (count 5) (
                                        field "measurement_end_monotonic_ns" (count 2005) (
                                          field "measured_duration_seconds" (count 2) (
                                            field "workload_label" (text "training")
                                              (field "config" (obj config) end))))))))))))))))))))))

manifest_valid : validate_manifest calls toy manifest ≡ ok tt
unfolding validate_manifest member contains field_names get at_least equals_int utc_timestamp
    has_both_ranks same_set same_value float_unit is_finite float_limit
manifest_valid = refl

validate_manifest-interval_example :
    (is_negative (pos 5) ≡ false)
    × (ltz (pos 2005) (pos 5) ≡ false)
    × (truthy (get manifest "experiment_session_id") ≡ true)
    × (same_value (get manifest "random_seed") (get manifest "seed") ≡ true)
unfolding contains field_names get same_value float_unit
validate_manifest-interval_example =
    validate_manifest-interval calls toy manifest (pos 5) (pos 2005) manifest_valid refl refl refl
      refl

validate_manifest-strategy_example :
    (config_found ranks_found first second : Fields) × (get manifest "config" ≡ obj config_found)
    × (get config_found "rank_runtime_evidence" ≡ obj ranks_found)
    × IsSummary (get ranks_found "0") first
    × IsSummary (get ranks_found "1") second
    × (same_value (get first "actual_sync_rounds") (get second "actual_sync_rounds") ≡ true)
unfolding contains field_names get same_value float_unit
validate_manifest-strategy_example =
    validate_manifest-strategy calls toy manifest manifest_valid refl refl refl

abbrev row_record : String → Fields
row_record version = field "schema_version" (text version) (
    field "artifact_kind" (text "feature_row") (
      field "run_id" (text "run-1") (
        field "experiment_session_id" (text "session") (
          field "workload_family" (text "ddp") (
            field "target_label" (text "training") (
              field "workload_config_id" (text "cfg")
                (field "designation" (text "benign") end)))))))

abbrev old : Fields
old = row_record legacy_version

abbrev new : Fields
new = row_record current_version

migrate_twice_example : migrate (migrate old) ≡ migrate old
migrate_twice_example = migrate_twice old

abbrev group : RunGroup
group = record {
  run_id = "run-1";
  experiment_session_id = "session";
  target_label = "training";
  workload_family = "ddp";
  workload_config_id = "cfg";
}

abbrev groups : Groups
groups = ("run-1", group) ∷ []

rows_grouped : run_groups (map (λ fs. row_from_dict toy (migrate fs)) (new ∷ [])) ≡ ok groups
unfolding run_groups row_from_dict migrate contains field_names get str
rows_grouped = refl
