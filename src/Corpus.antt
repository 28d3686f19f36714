-- ===== src/Corpus.antt =====
-- src/commguard/corpus.py: planned runs and the accepted-run allow-list.
pub mod Allowed
pub mod Tests
use comm_guard.Prelude.{
  ℕ, String, Bool, true, false, not, ◌&&◌, ◌||◌, Option, none, some, List, [], ◌∷◌, map, ◌==◌, eqb,
  ℤ, is_negative, length, is_empty, keep, contains, same_set, sorted, distinct, lookup, keys,
  non_empty, if◌then◌else◌, Exception, validation_error, Result, ok, err, ◌>>=◌, ◌>>◌, raise_if,
}
use comm_guard.Schemas.Values.{current_version}
use comm_guard.Calibration.Constants.{calibration_reference_fields}

-- A planned run. `config`, which is only copied and hashed, is left out.
pub record PlannedRun : Type 0 where
  pub plan_id : String
  pub workload_family : String
  pub target_label : String
  pub designation : String
  pub accepted_run_id : Option String
  pub random_seed : ℤ
  pub workload_config_id : Option String

abbrev pub designations : List String
designations = "benign" ∷ "adversarial" ∷ "calibration" ∷ []

-- `_require`
abbrev require : Bool → String → Result (Unit {0})
require condition message = raise_if (not condition) (validation_error message)

-- `value is None or bool(value)`
abbrev absent_or_non_empty : Option String → Bool
absent_or_non_empty none = true
absent_or_non_empty (some s) = non_empty s

-- `PlannedRun.validate`, without the tests that a field is of its declared type
unfoldable pub validate_planned_run : PlannedRun → Result (Unit {0})
validate_planned_run p = do
  require (non_empty p.plan_id) "planned_run.plan_id: required"
  require (non_empty p.workload_family) "planned_run.workload_family: required"
  require (non_empty p.target_label) "planned_run.target_label: required"
  require (contains designations p.designation) "planned_run.designation: invalid"
  require (not (is_negative p.random_seed)) "planned_run.random_seed: must be non-negative"
  require (absent_or_non_empty p.workload_config_id)
      "planned_run.workload_config_id: must be non-empty when provided"

-- A calibration reference: its values as texts, and the value of
-- `calibration_created_in_current_session`, `none` if it is not a Boolean.
pub record Reference : Type 0 where
  pub fields : List (String × String)
  pub created_in_current_session : Option Bool

pub record CorpusManifest : Type 0 where
  pub corpus_id : String
  pub collection_id : String
  pub experiment_session_id : String
  pub node_id : String
  pub planned_runs : List PlannedRun
  pub accepted_run_ids : List String
  pub source_commit : String
  pub input_archive_sha256 : Option String
  pub random_seed : ℤ
  pub calibration_reference : Option Reference
  pub schema_version : String
  pub artifact_kind : String

-- The match with `[0-9a-f]{64}`, and the test that a path is empty, absolute or goes up.
pub record Checks : Type 0 where
  pub is_sha256 : String → Bool
  pub is_bad_path : String → Bool

-- `len(values) == len(set(values))`
unfoldable pub is_unique : List String → Bool
unfolding distinct
is_unique xs = eqb (length xs) (length (distinct xs))

-- `[item.accepted_run_id for item in … if item.accepted_run_id]`
unfoldable pub declared : List PlannedRun → List String
declared [] = []
declared (p ∷ rest) = elim p.accepted_run_id [
  | none ↦ declared rest
  | some id ↦ let others = declared rest in if non_empty id then id ∷ others else others
]

abbrev value_of : Reference → String → String
value_of r k = elim (lookup k r.fields) [ none ↦ "" | some s ↦ s ]

-- `created is flag`
abbrev is_flag : Option Bool → Bool → Bool
is_flag none flag = false
is_flag (some true) flag = flag
is_flag (some false) flag = not flag

unfoldable pub validate_reference : Checks → Option Reference → Result (Unit {0})
validate_reference c none = ok tt
validate_reference c (some r) = do
  let missing = keep (λ k. not (contains (keys r.fields) k)) calibration_reference_fields
  require (is_empty missing) "corpus.calibration_reference: missing fields"
  require (not (c.is_bad_path (value_of r "calibration_artifact_path")))
      "corpus.calibration_reference.calibration_artifact_path: invalid"
  require (c.is_sha256 (value_of r "calibration_sha256"))
      "corpus.calibration_reference.calibration_sha256: invalid"
  let relationship = value_of r "calibration_relationship"
  require (relationship == "current_session" || relationship == "prior_session")
      "corpus.calibration_reference.calibration_relationship: invalid"
  require (is_flag r.created_in_current_session (relationship == "current_session"))
      "corpus.calibration_reference: current/prior labels conflict"

unfoldable pub validate_planned_runs : List PlannedRun → Result (Unit {0})
unfolding validate_planned_run
validate_planned_runs [] = ok tt
validate_planned_runs (p ∷ rest) = do validate_planned_run p; validate_planned_runs rest

-- The checks of the scalar fields of a manifest.
unfoldable pub validate_scalars : Checks → CorpusManifest → Result (Unit {0})
validate_scalars c m = do
  require (m.schema_version == current_version) "corpus.schema_version: unsupported version"
  require (non_empty m.corpus_id) "corpus.corpus_id: required"
  require (non_empty m.collection_id) "corpus.collection_id: required"
  require (non_empty m.experiment_session_id) "corpus.experiment_session_id: required"
  require (non_empty m.node_id) "corpus.node_id: required"
  require (non_empty m.source_commit) "corpus.source_commit: required"
  require (not (is_empty m.planned_runs)) "corpus.planned_runs: must not be empty"
  require (m.artifact_kind == "corpus_manifest") "corpus.artifact_kind: invalid"
  require (not (is_negative m.random_seed)) "corpus.random_seed: must be non-negative"
  require (elim m.input_archive_sha256 [ none ↦ true | some s ↦ c.is_sha256 s ])
      "corpus.input_archive_sha256: must be 64 lowercase hexadecimal characters"

-- The checks of the run identifiers.
unfoldable pub validate_runs : CorpusManifest → Result (Unit {0})
unfolding validate_planned_runs is_unique declared
validate_runs m = do
  require (is_unique (map (λ p. p.plan_id) m.planned_runs))
      "corpus.planned_runs: plan IDs must be unique"
  validate_planned_runs m.planned_runs
  require (is_unique (declared m.planned_runs))
      "corpus.planned_runs: accepted run IDs must be unique"
  require (is_unique m.accepted_run_ids) "corpus.accepted_run_ids: must be unique"
  require (same_set m.accepted_run_ids (declared m.planned_runs))
      "corpus.accepted_run_ids: must exactly match planned-run assignments"

-- `CorpusManifest.validate`
unfoldable pub validate_corpus : Checks → CorpusManifest → Result (Unit {0})
unfolding validate_scalars validate_reference validate_runs
validate_corpus c m = do
  validate_scalars c m
  validate_reference c m.calibration_reference
  validate_runs m

-- `item.accepted_run_id == run_id`
abbrev pub fills : String → PlannedRun → Bool
fills run_id p = elim p.accepted_run_id [ none ↦ false | some id ↦ id == run_id ]

-- `planned_for_run`
unfoldable pub planned_for_run : List PlannedRun → String → Option PlannedRun
planned_for_run [] run_id = none
planned_for_run (p ∷ rest) run_id =
    let later = planned_for_run rest run_id in if fills run_id p then some p else later

abbrev is_designated : Option PlannedRun → String → Bool
is_designated none designation = false
is_designated (some p) designation = p.designation == designation

-- `allows`
unfoldable pub allows : CorpusManifest → String → String → Bool
unfolding planned_for_run
allows m run_id designation =
    contains m.accepted_run_ids run_id
    && is_designated (planned_for_run m.planned_runs run_id) designation
