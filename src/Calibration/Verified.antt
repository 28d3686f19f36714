-- ===== src/Calibration/Verified.antt =====
-- What a verified calibration reference says.
use comm_guard.Prelude.{
  ◌≡◌, ◌∙◌, ap, String, true, false, not, ◌&&◌, Option, none, some, List, [], ◌∷◌, ◌==◌, All,
  is_empty, is_some, keep, contains, arith, ok, >>=-eq-ok, raise_if-then, raise_if-ok,
}
use comm_guard.Central.Json.{Value, obj, Fields, get, field_names, truthy}
use comm_guard.Central.Runtime.{str}
use comm_guard.Central.Messages.{Python}
use comm_guard.Schemas.Values.{
  as_mapping, as_mapping-obj, equals_text, same_value, legacy_version, current_version,
}
use comm_guard.Schemas.Artifact.{Decoders, validate_artifact}
use comm_guard.Artifacts.Storage.{below}
use comm_guard.Calibration.Constants.{calibration_reference_fields}
use comm_guard.Calibration.{
  Files, Expected, comparisons, compare_fields, content_of, value_of, read_reference, check_state,
  check_relation, verify_calibration_reference,
}

-- The file lies below the root and has the digest of the reference; what `json.loads` reads of it passes the
-- checks of artifacts and agrees with the reference; it is a supported calibration of the current schema that
-- passed the capture gate.
pub record IsVerified (d : Decoders) (rt : Python) (files : Files) (reference calibration : Fields)
    : Type 0 where
  pub content : String
  pub found :
      files.content (files.resolved (str rt (get reference "calibration_artifact_path")))
      ≡ some content
  pub inside :
      is_some
        (below files.root (files.resolved (str rt (get reference "calibration_artifact_path"))))
      ≡ true
  pub parsed : files.loads content ≡ some (obj calibration)
  pub digest : equals_text (files.sha256 content) (get reference "calibration_sha256") ≡ true
  pub valid : validate_artifact d rt calibration ≡ ok tt
  pub agrees :
      All
        (λ (c : String × String). same_value (get calibration c.0) (get reference c.1) ≡ true)
        comparisons
  pub current : str rt (get calibration "schema_version") == current_version ≡ true
  pub supported : equals_text "supported" (get calibration "status") ≡ true
  pub passed : truthy (get calibration "modern_capture_gate_passed") ≡ true

value_of-ok : (o : Option Value) {v : Value} → value_of o ≡ ok v → o ≡ some v
value_of-ok none h = cc
value_of-ok (some w) h = cc

content_of-ok : (o : Option String) (s : String) → content_of o ≡ ok s → o ≡ some s
content_of-ok none s h = cc
content_of-ok (some t) s h = cc h

module _ (rt : Python) (files : Files) (reference calibration : Fields) where
  compare_fields-All :
      (cs : List (String × String)) {u : Unit {0}}
      → compare_fields calibration reference cs ≡ ok u
      → All
          (λ (c : String × String). same_value (get calibration c.0) (get reference c.1) ≡ true)
          cs
  unfolding compare_fields
  compare_fields-All [] h = tt
  compare_fields-All ((a, r) ∷ rest) h =
      let (same, h1) =
        raise_if-then (not (same_value (get calibration a) (get reference r))) _ _ h in
      (ground arith, compare_fields-All rest h1)

  read_reference-ok :
      (content : String)
      → read_reference rt files reference ≡ ok content
      → (files.content (files.resolved (str rt (get reference "calibration_artifact_path")))
          ≡ some content)
        × (is_some (
              below files.root
                (files.resolved (str rt (get reference "calibration_artifact_path"))))
            ≡ true)
        × (equals_text (files.sha256 content) (get reference "calibration_sha256") ≡ true)
  unfolding read_reference
  read_reference-ok content h =
      let relative = str rt (get reference "calibration_artifact_path") in
      let path = files.resolved relative in
      let (_, h1) =
        raise_if-then
          (not (
            is_empty
              (keep (λ k. not (contains (field_names reference) k)) calibration_reference_fields)))
          _ _ h in
      let (_, h2) = raise_if-then (files.is_absolute relative) _ _ h1 in
      let (inside, h3) = raise_if-then (not (is_some (below files.root path))) _ _ h2 in
      let (text, e, h4) = >>=-eq-ok (content_of (files.content path)) _ h3 in
      let (digest, h5) =
        raise_if-then (not (equals_text (files.sha256 text) (get reference "calibration_sha256"))) _
          _ h4 in
      let same : text ≡ content = cc h5 in
      (
        rw (← same) (content_of-ok (files.content path) text e),
        ground arith,
        rw (← same) (ground arith),
      )

  check_state-ok :
      (e : Expected) {u : Unit {0}}
      → e.require_supported ≡ true
      → e.allow_legacy ≡ false
      → check_state rt e calibration ≡ ok u
      → (str rt (get calibration "schema_version") == current_version ≡ true)
        × (equals_text "supported" (get calibration "status") ≡ true)
        × (truthy (get calibration "modern_capture_gate_passed") ≡ true)
  unfolding check_state
  check_state-ok e supported modern h =
      let version = str rt (get calibration "schema_version") in
      let (_, h1) =
        raise_if-then (not (contains (legacy_version ∷ current_version ∷ []) version)) _ _ h in
      let (current, h2) =
        raise_if-then (not e.allow_legacy && not (version == current_version)) _ _ h1 in
      let (status, h3) =
        raise_if-then
          (e.require_supported && not (equals_text "supported" (get calibration "status"))) _ _
          h2 in
      let gate =
        raise_if-ok
          (e.require_supported
            && (version == current_version
                && not (truthy (get calibration "modern_capture_gate_passed"))))
          _ h3 in
      (ground arith, ground arith, ground arith)

-- If `verify_calibration_reference` returns where a supported calibration is required and a legacy one is
-- not allowed, the calibration is what `json.loads` reads of a file below the artifact root with the digest of the
-- reference, passes the checks of artifacts, agrees with the reference in the six compared fields, and is
-- a supported one of the current schema that passed the capture gate.
pub verify_calibration_reference-IsVerified :
    (d : Decoders) (rt : Python) (files : Files) (e : Expected) (reference calibration : Fields)
    → e.require_supported ≡ true
    → e.allow_legacy ≡ false
    → verify_calibration_reference d rt files e reference ≡ ok calibration
    → IsVerified d rt files reference calibration
unfolding verify_calibration_reference
verify_calibration_reference-IsVerified d rt files e reference calibration supported modern h =
    let (content, read, h1) = >>=-eq-ok (read_reference rt files reference) _ h in
    let (value, loaded, h2) = >>=-eq-ok (value_of (files.loads content)) _ h1 in
    let (found, mapped, h3) = >>=-eq-ok (as_mapping value) _ h2 in
    let (_, valid, h4) = >>=-eq-ok (validate_artifact d rt found) _ h3 in
    let (_, agrees, h5) = >>=-eq-ok (compare_fields found reference comparisons) _ h4 in
    let (_, state, h6) = >>=-eq-ok (check_state rt e found) _ h5 in
    let (_, _, h7) = >>=-eq-ok (check_relation rt e reference found) _ h6 in
    let same : found ≡ calibration = cc h7 in
    let (there, inside, digest) = read_reference-ok rt files reference found content read in
    let (current, status, gate) =
      check_state-ok rt files reference found e supported modern state in
    rw (← same) (record {
      content = content;
      found = there;
      inside = inside;
      parsed = value_of-ok (files.loads content) loaded ∙ ap some (as_mapping-obj value mapped);
      digest = digest;
      valid = valid;
      agrees = compare_fields-All rt files reference found comparisons agrees;
      current = current;
      supported = status;
      passed = gate;
    })
