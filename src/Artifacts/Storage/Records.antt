-- ===== src/Artifacts/Storage/Records.antt =====
-- `write_json` and `write_jsonl` of src/commguard/artifacts/storage.py, with `write_text`. `failure`
-- is what the write of the file raises.
use Prim.Native.String.{◌++◌ as append}
use comm_guard.Prelude.{
  String, Bool, Option, List, [], ◌∷◌, if◌then◌else◌, Exception, Result, ok, err, ◌>>=◌, ◌>>◌,
}
use comm_guard.Central.Json.{Fields}
use comm_guard.Central.Messages.{Python}
use comm_guard.Schemas.Artifact.{Decoders, validate_artifact}
use comm_guard.Artifacts.Tree.{FilePath, Tree}
use comm_guard.Artifacts.Storage.{exclusive_write}

-- `json.dumps` with `sort_keys` and `allow_nan=False`: indented, and on one line.
pub record Encoder : Type 0 where
  pub indented : Fields → Result String
  pub compact : Fields → Result String

module _ (d : Decoders) (rt : Python) (encoder : Encoder) where
  abbrev check : Bool → Fields → Result (Unit {0})
  check validate record_data = if validate then validate_artifact d rt record_data else ok tt

  -- The text of a JSON file.
  unfoldable pub encode_object : Bool → Fields → Result String
  encode_object validate record_data = do
    check validate record_data
    encoded ← encoder.indented record_data
    ok (append encoded "\n")

  -- The lines of a `.jsonl` file, in their order; the first exception ends the loop.
  unfoldable pub encode_lines : Bool → List Fields → Result (List String)
  encode_lines validate [] = ok []
  encode_lines validate (r ∷ rest) = do
    check validate r
    line ← encoder.compact r
    lines ← encode_lines validate rest
    ok (line ∷ lines)

  -- `"\n".join(lines) + "\n"`
  abbrev pub joined : List String → String
  joined [] = "\n"
  joined (line ∷ []) = append line "\n"
  joined (line ∷ next ∷ rest) = append line (append "\n" (joined (next ∷ rest)))

  module _ (root : FilePath) (t : Tree) (path : FilePath) (failure : Option Exception) where
    abbrev write_encoded : Result String → Tree × Result (Unit {0})
    write_encoded (err e) = (t, err e)
    write_encoded (ok content) = exclusive_write root t path content failure

    -- `write_json`
    unfoldable pub write_json : Bool → Fields → Tree × Result (Unit {0})
    unfolding encode_object
    write_json validate record_data = write_encoded (encode_object validate record_data)

    -- `write_jsonl`
    unfoldable pub write_jsonl : Bool → List Fields → Tree × Result (Unit {0})
    unfolding encode_lines
    write_jsonl validate records =
        write_encoded (encode_lines validate records >>= λ lines. ok (joined lines))
