-- ===== src/Artifacts/Tests.antt =====
-- Runs of the artifact store.
use comm_guard.Prelude.{
  true, ◌≡◌, refl, ◌⊎◌, String, false, Option, none, some, [], ◌∷◌, ◌==◌, contains, some_of,
  if◌then◌else◌, Exception, validation_error, ok, err,
}
use comm_guard.Artifacts.Tree.{find, FilePath, Tree, Node, same_path}
use comm_guard.Artifacts.Storage.{Kind, Member, Archives, Limits, restore_archive, exclusive_write}
use comm_guard.Central.Json.{text, Fields, end, field, get, field_names}
use comm_guard.Central.Examples.{toy}
use comm_guard.Corpus.{Checks}
use comm_guard.Schemas.Values.{Calls, member, require_fields}
use comm_guard.Schemas.Artifact.{Decoders, validate_artifact}
use comm_guard.Artifacts.Storage.Records.{Encoder, write_json}
use comm_guard.Artifacts.Storage.Restored.{IsRestored, restore_archive-IsRestored}
use comm_guard.Artifacts.Storage.Written.{IsExclusive, exclusive_write-IsExclusive}

abbrev file_of : String → String → Member
file_of name content = record { name = name; kind = Kind.regular 4 (some content) }

-- The names of the examples have one or two parts.
abbrev lib : Archives
lib = record {
  parts = λ name.
      if name == "runs/a"
      then "runs" ∷ "a" ∷ []
      else if name == "../a"
      then ".." ∷ "a" ∷ []
      else name ∷ [];
  is_absolute = λ name. false;
  members = λ content.
      if content == "good"
      then ok (file_of "runs/a" "one" ∷ file_of "b" "two" ∷ [])
      else ok (file_of "b" "two" ∷ file_of "../a" "one" ∷ []);
  sha256 = λ content. content;
}

abbrev limits : Limits lib
limits = record { maximum_uncompressed_bytes = 10; maximum_members = 5 }

abbrev restored : Tree
restored =
    ("b" ∷ [], Node.file "two")
    ∷ ("runs" ∷ "a" ∷ [], Node.file "one")
    ∷ ("runs" ∷ [], Node.folder)
    ∷ []

restores :
    (restore_archive lib limits "good" (some "good") none ≡ (some restored, ok tt))
    × (restore_archive lib limits "bad" (some "bad") none
        ≡ (none, err (validation_error "unsafe or duplicate archive path")))
unfolding restore_archive contains some_of same_path
restores = (refl, refl)

restore_archive-IsRestored_example :
    ((e : Exception) × (restore_archive lib limits "good" (some "good") none ≡ (none, err e)))
    ⊎ ((t : Tree) × (restore_archive lib limits "good" (some "good") none ≡ (some t, ok tt))
        × (◌≡◌ {A = Option Tree} none none)
        × IsRestored lib limits "good" (some "good") t)
restore_archive-IsRestored_example = restore_archive-IsRestored lib limits "good" (some "good") none

abbrev root : FilePath
root = "data" ∷ []

abbrev target : FilePath
target = "data" ∷ "b" ∷ []

exclusive_write-IsExclusive_example :
    IsExclusive root target restored "three" (exclusive_write root restored target "three" none)
exclusive_write-IsExclusive_example = exclusive_write-IsExclusive root target restored "three" none

abbrev calls : Calls
calls = record {
  dict_of = λ v. err (Exception.type_error "not a mapping");
  characters = λ s. [];
  is_close = λ measured start stop. ok true;
}

abbrev checks : Checks
checks = record { is_sha256 = λ s. true; is_bad_path = λ s. false }

abbrev decoders : Decoders
decoders = record {
  calls = calls;
  float_of = λ v. ok v;
  corpus_of = λ fs. err (Exception.type_error "no corpus");
  corpus_checks = checks;
  coverage_of = λ fs. err (Exception.type_error "no record");
  key_of = λ n. "30";
}

abbrev summary : Fields
summary =
    field "artifact_kind" (text "experiment_summary")
      (field "schema_version" (text "2.0") (field "summary_type" (text "study") end))

abbrev encoder : Encoder
encoder = record { indented = λ fs. ok "summary"; compact = λ fs. ok "line" }

summary_written :
    (write_json decoders toy encoder root restored target none true summary).1
    ≡ err (Exception.artifact_exists_error "refusing to overwrite artifact")
unfolding write_json exclusive_write member contains field_names get require_fields find same_path
    validate_artifact
summary_written = refl

abbrev elsewhere : FilePath
elsewhere = "data" ∷ "results" ∷ "s" ∷ []

written : (write_json decoders toy encoder root restored elsewhere none true summary).1 ≡ ok tt
unfolding write_json exclusive_write member contains field_names get require_fields find same_path
    validate_artifact
written = refl
