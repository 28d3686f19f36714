-- ===== src/Schemas/Migration.antt =====
-- `_migrate_legacy_record` and `load_artifact` of src/commguard/schemas.py. The content of a file is an
-- argument: the text, or the lines of a `.jsonl` file.
pub mod Legacy
use comm_guard.Prelude.{
  ℕ, String, Bool, true, false, not, Option, none, some, List, [], ◌∷◌, ◌==◌, if◌then◌else◌,
  Exception, attribute_error, validation_error, Result, ok, err, ◌>>=◌, ◌>>◌, ◌⊎◌, inl, inr,
}
use comm_guard.Central.Json.{Value, null, bool, text, obj, Fields, end, field, get}
use comm_guard.Central.Messages.{Python}
use comm_guard.Schemas.Values.{equals_text, legacy_version, current_version, as_mapping}
use comm_guard.Schemas.Artifact.{Decoders, validate_artifact}

-- `mapping[key] = value`
unfoldable pub set_key : String → Value → Fields → Fields
set_key k v end = field k v end
set_key k v (field j w rest) =
    let others = set_key k v rest in if j == k then field j v rest else field j w others

abbrev pub is_legacy : Fields → Bool
is_legacy fs = equals_text legacy_version (get fs "schema_version")

-- `migrated.update({name: None, …})`
unfoldable pub clear : List String → Fields → Fields
unfolding set_key
clear [] fs = fs
clear (name ∷ rest) fs = clear rest (set_key name null fs)

abbrev run_keys : List String
run_keys =
    "experiment_session_id" ∷ "collection_id" ∷ "corpus_id" ∷ "node_id" ∷ "source_dirty"
    ∷ "input_archive_sha256" ∷ "notebook_version" ∷ []

abbrev interval_keys : List String
interval_keys =
    "measurement_start_monotonic_ns" ∷ "measurement_end_monotonic_ns" ∷ "measured_duration_seconds"
    ∷ []

abbrev row_keys : List String
row_keys = "experiment_session_id" ∷ "collection_id" ∷ "corpus_id" ∷ "node_id" ∷ []

abbrev report_keys : List String
report_keys = "experiment_session_id" ∷ "node_id" ∷ []

-- The changes of one kind of artifact.
unfoldable pub migrate_kind : Fields → Fields
unfolding clear set_key
migrate_kind fs =
    let kind = get fs "artifact_kind" in
    if equals_text "run_manifest" kind
    then clear interval_keys (set_key "random_seed" (get fs "seed") (clear run_keys fs))
    else if equals_text "feature_row" kind
    then clear row_keys (set_key "environment_fingerprint" (get fs "session_fingerprint") fs)
    else if equals_text "environment_report" kind
    then clear report_keys (set_key "environment_fingerprint" (get fs "session_fingerprint") fs)
    else fs

-- `_migrate_legacy_record`
unfoldable pub migrate : Fields → Fields
unfolding migrate_kind set_key
migrate fs =
    if is_legacy fs
    then migrate_kind (
        set_key "legacy_grouping_ambiguous" (bool true) (
          set_key "schema_version" (text current_version)
            (set_key "source_schema_version" (text legacy_version) fs)))
    else fs

-- `json.loads`, `none` for a `JSONDecodeError`, and `not line.strip()`.
pub record Loader : Type 0 where
  pub loads : String → Option Value
  pub is_blank : String → Bool

abbrev pub parsed : Loader → String → Result Value
parsed l s = elim (l.loads s) [ none ↦ err (validation_error "invalid JSON") | some v ↦ ok v ]

abbrev view : Bool → Fields → Fields
view migrate_legacy fs = if migrate_legacy then migrate fs else fs

-- The content of a file: the lines of a `.jsonl` file, or the text of one with another suffix.
pub data Source : Type 0 where
  jsonl : List String → Source
  other : String → Source

module _ (l : Loader) (d : Decoders) (rt : Python) (migrate_legacy : Bool) where
  -- The loop over the lines of a `.jsonl` file.
  unfoldable pub load_lines : List String → Result (List Fields)
  unfolding migrate validate_artifact
  load_lines [] = ok []
  load_lines (line ∷ rest) = elim (l.is_blank line) [
    | true ↦ load_lines rest
    | false ↦ parsed l line >>= λ item.
        (as_mapping item >>= λ fs.
        (validate_artifact d rt fs >>= λ _.
        (load_lines rest >>= λ others. ok (view migrate_legacy fs ∷ others))))
  ]

  abbrev pub object_of : Value → Result Fields
  object_of (obj fs) = ok fs
  object_of _ = err (validation_error "top level must be an object")

  -- The branch of `load_artifact` for a file with another suffix than `.jsonl`.
  unfoldable pub load_object : String → Result Fields
  unfolding migrate validate_artifact
  load_object content = do
    value ← parsed l content
    fs ← object_of value
    validate_artifact d rt fs
    ok (view migrate_legacy fs)

  -- `load_artifact`: one record, or a list of them.
  unfoldable pub load_artifact : Source → Result (Fields ⊎ List Fields)
  unfolding load_lines load_object
  load_artifact (jsonl lines) = load_lines lines >>= λ records. ok (inr records)
  load_artifact (other content) = load_object content >>= λ fs. ok (inl fs)
