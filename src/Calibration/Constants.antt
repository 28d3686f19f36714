-- ===== src/Calibration/Constants.antt =====
-- The constants of src/commguard/calibration.py that other modules read.
use comm_guard.Prelude.{String, List, [], ◌∷◌}

-- `CALIBRATION_REFERENCE_FIELDS`
abbrev pub calibration_reference_fields : List String
calibration_reference_fields =
    "calibration_artifact_path" ∷ "calibration_sha256" ∷ "calibration_experiment_session_id"
    ∷ "calibration_collection_id" ∷ "calibration_environment_fingerprint"
    ∷ "calibration_source_commit" ∷ "calibration_schema_version" ∷ "calibration_status"
    ∷ "calibration_relationship" ∷ "calibration_created_in_current_session" ∷ []
