-- ===== src/Calibration.antt =====
-- `verify_calibration_reference` of src/commguard/calibration.py: the check of the calibration that a corpus
-- refers to, against the file of the artifact store.
pub mod Constants
pub mod Tests
pub mod Verified
use comm_guard.Prelude.{
  String, Bool, true, false, not, ◌&&◌, Option, none, some, List, [], ◌∷◌, ◌==◌, eqb, length,
  is_empty, is_some, keep, contains, if◌then◌else◌, Exception, value_error, Result, ok, err, ◌>>=◌,
  ◌>>◌, raise_if,
}
use comm_guard.Central.Json.{Value, Fields, get, field_names, truthy}
use comm_guard.Central.Runtime.{str}
use comm_guard.Central.Messages.{Python}
use comm_guard.Schemas.Values.{
  as_mapping, equals_text, member, same_value, legacy_version, current_version,
}
use comm_guard.Schemas.Artifact.{Decoders, validate_artifact}
use comm_guard.Artifacts.Tree.{FilePath}
use comm_guard.Artifacts.Storage.{below}
use comm_guard.Calibration.Constants.{calibration_reference_fields}

-- The artifact root, `Path(text).is_absolute()`, `(root / text).resolve()`, and the content of a regular
-- file; SHA-256 in hexadecimal, and `json.loads`, `none` for a `JSONDecodeError`.
pub record Files : Type 0 where
  pub root : FilePath
  pub is_absolute : String → Bool
  pub resolved : String → FilePath
  pub content : FilePath → Option String
  pub sha256 : String → String
  pub loads : String → Option Value

-- The keyword arguments; an expected set is a list of its elements.
pub record Expected : Type 0 where
  pub experiment_session_ids : Option (List String)
  pub environment_fingerprints : Option (List String)
  pub source_commits : Option (List String)
  pub require_current_session : Bool
  pub allow_legacy : Bool
  pub require_supported : Bool

-- A field of the artifact and the field of the reference that it is compared with.
abbrev pub comparisons : List (String × String)
comparisons =
    ("experiment_session_id", "calibration_experiment_session_id")
    ∷ ("collection_id", "calibration_collection_id")
    ∷ ("environment_fingerprint", "calibration_environment_fingerprint")
    ∷ ("source_commit", "calibration_source_commit")
    ∷ ("schema_version", "calibration_schema_version")
    ∷ ("status", "calibration_status")
    ∷ []

abbrev pub refusal : String → Exception
refusal message = Exception.calibration_error message

-- The loop over the comparisons.
unfoldable pub compare_fields : Fields → Fields → List (String × String) → Result (Unit {0})
compare_fields calibration reference [] = ok tt
compare_fields calibration reference ((artifact_field, reference_field) ∷ rest) = do
  raise_if (not (same_value (get calibration artifact_field) (get reference reference_field)))
      (refusal "calibration reference mismatch")
  compare_fields calibration reference rest

-- One of the last checks.
unfoldable pub check_expected : Option (List String) → Value → Result (Unit {0})
check_expected none observed = ok tt
check_expected (some names) observed = do
  raise_if (not (eqb (length names) 1)) (refusal "calibration mismatch")
  found ← member names observed
  raise_if (not found) (refusal "calibration mismatch")

abbrev pub content_of : Option String → Result String
content_of none = err (refusal "referenced calibration artifact is missing")
content_of (some content) = ok content

abbrev pub value_of : Option Value → Result Value
value_of none = err (value_error "invalid JSON")
value_of (some v) = ok v

abbrev pub differ : Bool → Bool → Bool
differ true b = not b
differ false b = b

-- The file that the reference names, from the checks of the path to those of the digest.
unfoldable pub read_reference : Python → Files → Fields → Result String
unfolding below keep
read_reference rt files reference = do
  let missing = keep (λ k. not (contains (field_names reference) k)) calibration_reference_fields
  raise_if (not (is_empty missing)) (refusal "calibration reference is missing fields")
  let relative = str rt (get reference "calibration_artifact_path")
  raise_if (files.is_absolute relative)
      (refusal "calibration_artifact_path must be artifact-root-relative")
  let path = files.resolved relative
  raise_if (not (is_some (below files.root path)))
      (refusal "calibration artifact path escapes the artifact root")
  content ← content_of (files.content path)
  raise_if (not (equals_text (files.sha256 content) (get reference "calibration_sha256")))
      (refusal "calibration SHA-256 mismatch")
  ok content

-- The checks of the version, the status and the capture gate.
unfoldable pub check_state : Python → Expected → Fields → Result (Unit {0})
check_state rt e calibration = do
  let version = str rt (get calibration "schema_version")
  raise_if (not (contains (legacy_version ∷ current_version ∷ []) version))
      (refusal "incompatible calibration schema")
  raise_if (not e.allow_legacy && not (version == current_version))
      (refusal "modern evaluation requires the current calibration schema")
  raise_if (e.require_supported && not (equals_text "supported" (get calibration "status")))
      (refusal "referenced calibration is not supported")
  raise_if
      (e.require_supported
        && (version == current_version
            && not (truthy (get calibration "modern_capture_gate_passed"))))
      (refusal "modern calibration did not pass the idle-aware capture gate")

-- The checks of the session and of the expected sets.
unfoldable pub check_relation : Python → Expected → Fields → Fields → Result (Unit {0})
unfolding check_expected
check_relation rt e reference calibration = do
  let relationship = str rt (get reference "calibration_relationship")
  let created = truthy (get reference "calibration_created_in_current_session")
  raise_if (differ created (relationship == "current_session"))
      (refusal "calibration current/prior-session labels conflict")
  raise_if (e.require_current_session && not (relationship == "current_session"))
      (refusal "current collection requires a current-session calibration")
  check_expected e.experiment_session_ids (get calibration "experiment_session_id")
  check_expected e.environment_fingerprints (get calibration "environment_fingerprint")
  check_expected e.source_commits (get calibration "source_commit")

-- `verify_calibration_reference`
unfoldable pub verify_calibration_reference :
    Decoders → Python → Files → Expected → Fields → Result Fields
unfolding read_reference compare_fields check_state check_relation
verify_calibration_reference d rt files e reference = do
  content ← read_reference rt files reference
  value ← value_of (files.loads content)
  calibration ← as_mapping value
  validate_artifact d rt calibration
  compare_fields calibration reference comparisons
  check_state rt e calibration
  check_relation rt e reference calibration
  ok calibration
