-- ===== src/Calibration/Tests.antt =====
-- A run of the check of a calibration reference.
use comm_guard.Prelude.{
  ◌≡◌, refl, true, false, none, some, [], ◌∷◌, contains, keep, distinct, Exception, ok, err,
}
use comm_guard.Central.Json.{null, bool, text, arr, obj, nil, Fields, end, field, get, field_names}
use comm_guard.Central.Examples.{toy}
use comm_guard.Schemas.Values.{member, same_value, require_fields}
use comm_guard.Schemas.Artifact.{Decoders, validate_artifact}
use comm_guard.Artifacts.Storage.{below}
use comm_guard.Calibration.{Files, Expected, verify_calibration_reference}
use comm_guard.Calibration.Verified.{IsVerified, verify_calibration_reference-IsVerified}

abbrev decoders : Decoders
decoders = record {
  calls = record {
    dict_of = λ v. err (Exception.type_error "not a mapping");
    characters = λ s. [];
    is_close = λ measured start stop. ok true;
  };
  float_of = λ v. ok v;
  corpus_of = λ fs. err (Exception.type_error "no corpus");
  corpus_checks = record { is_sha256 = λ s. true; is_bad_path = λ s. false };
  coverage_of = λ fs. err (Exception.type_error "no record");
  key_of = λ n. "30";
}

abbrev calibration : Fields
calibration = field "artifact_kind" (text "calibration_result") (
    field "schema_version" (text "2.0") (
      field "status" (text "supported") (
        field "observations" (arr nil) (
          field "falsification_reasons" (arr nil) (
            field "calibration_contract_version" (text "idle-aware-repeated-v2") (
              field "result_state" (text "supported") (
                field "legacy_compatibility_applied" (bool false) (
                  field "modern_capture_gate_passed" (bool true) (
                    field "decision_state" (text "passed") (
                      field "idle_baseline_repetitions" null (
                        field "idle_baseline_usable_repetitions" null (
                          field "idle_baseline_complete" (bool true) (
                            field "capture_gate_applied" (bool true) (
                              field "capture_threshold_bytes_per_s" null (
                                field "payload_summaries" null (
                                  field "thresholds" null (
                                    field "experiment_session_id" (text "session") (
                                      field "collection_id" (text "collection") (
                                        field "environment_fingerprint" (text "env")
                                          (field "source_commit" (text "c0") end))))))))))))))))))))

abbrev reference : Fields
reference = field "calibration_artifact_path" (text "results/c.json") (
    field "calibration_sha256" (text "hash") (
      field "calibration_experiment_session_id" (text "session") (
        field "calibration_collection_id" (text "collection") (
          field "calibration_environment_fingerprint" (text "env") (
            field "calibration_source_commit" (text "c0") (
              field "calibration_schema_version" (text "2.0") (
                field "calibration_status" (text "supported") (
                  field "calibration_relationship" (text "current_session")
                    (field "calibration_created_in_current_session" (bool true) end)))))))))

abbrev files : Files
files = record {
  root = "data" ∷ [];
  is_absolute = λ s. false;
  resolved = λ s. "data" ∷ "results" ∷ "c.json" ∷ [];
  content = λ path. some "json";
  sha256 = λ s. "hash";
  loads = λ s. some (obj calibration);
}

abbrev expected : Expected
expected = record {
  experiment_session_ids = some ("session" ∷ []);
  environment_fingerprints = none;
  source_commits = none;
  require_current_session = true;
  allow_legacy = false;
  require_supported = true;
}

evaluation : Unit {0}
unfolding verify_calibration_reference validate_artifact member contains field_names get same_value
    require_fields keep distinct below
evaluation = tt

verified : verify_calibration_reference decoders toy files expected reference ≡ ok calibration
unfolding evaluation
verified = refl

elsewhere :
    verify_calibration_reference decoders toy
      (record files { root = "other" ∷ [] })
      expected
      reference
    ≡ err (Exception.calibration_error "calibration artifact path escapes the artifact root")
unfolding evaluation
elsewhere = refl

verify_calibration_reference-IsVerified_example :
    IsVerified decoders toy files reference calibration
verify_calibration_reference-IsVerified_example =
    verify_calibration_reference-IsVerified decoders toy files expected reference calibration refl
      refl verified
