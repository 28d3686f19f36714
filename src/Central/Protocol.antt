-- ===== src/Central/Protocol.antt =====
-- `protocol_sample` of src/commguard/central/agent.py.
use Prim.Native.String.{◌++◌ as append}
use comm_guard.Prelude.{
  ℕ, suc, String, true, List, [], ◌∷◌, pos, contains, if◌then◌else◌, value_error, key_error,
  attribute_error, Result, ok, err, ◌>>=◌,
}
use comm_guard.Central.Json.{
  Value, obj, text, int, bool, Fields, field, end, get, get_default, field_names, truthy,
}
use comm_guard.Central.Runtime.{str}
use comm_guard.Central.Messages.{Python}
use comm_guard.Central.Samples.{to_int}

-- `a or b`
abbrev or_value : Value → Value → Value
or_value a b = if truthy a then a else b

-- `mapping[key]`
abbrev item : Fields → String → Result Value
item fs k = if contains (field_names fs) k then ok (get fs k) else err (key_error k)

-- `{name: bool(reading.get("supported")) for name, reading in fields.items()}`
unfoldable pub support_flags : Fields → Result Fields
support_flags end = ok end
support_flags (field name (obj reading) rest) = do
  others ← support_flags rest
  ok (field name (bool (truthy (get reading "supported"))) others)
support_flags (field name _ rest) = err (attribute_error "get")

abbrev object_of : Value → Result Fields
object_of (obj fs) = ok fs
object_of _ = err (value_error "backend sample fields must be an object")

-- `dict(value)`, where `dict_of` is the call on a value that is no mapping.
abbrev as_dict : (Value → Result Fields) → Value → Result Fields
as_dict dict_of (obj fs) = ok fs
as_dict dict_of v = dict_of v

-- `protocol_sample`, of the mapping that `to_dict` gives for a `TelemetrySample`.
unfoldable pub protocol_sample :
    Python → (Value → Result Fields) → (uuid configuration_hash : String) → Fields → Result Fields
unfolding support_flags
protocol_sample rt dict_of uuid configuration_hash payload = do
  fields ← object_of (get payload "fields")
  let sample_id = or_value (get payload "sample_id") (text (append "sample-" uuid))
  let observed = or_value (get payload "observed_at_utc") (get payload "wall_time_utc")
  time ← item payload "monotonic_ns"
  monotonic_ns ← to_int rt time
  gpu ← item payload "gpu_index"
  gpu_index ← to_int rt gpu
  gpu_uuid ← item payload "gpu_uuid"
  sequence ←
      to_int rt
        (get_default payload "sequence_number" (get_default payload "sequence" (int (pos 0))))
  rank ← to_int rt (get_default payload "rank" gpu)
  process_id ← to_int rt (get_default payload "process_id" (int (pos 1)))
  validity ←
      as_dict dict_of
        (get_default payload "validity_flags" (obj (field "sample_valid" (bool true) end)))
  flags ← support_flags fields
  support ← as_dict dict_of (get_default payload "telemetry_support_flags" (obj flags))
  ok (
      field "sample_id" (text (str rt sample_id)) (
        field "observed_at_utc" (text (str rt observed)) (
          field "monotonic_ns" (int monotonic_ns) (
            field "gpu_index" (int gpu_index) (
              field "gpu_uuid" (text (str rt gpu_uuid)) (
                field "sequence_number" (int sequence) (
                  field "rank" (int rank) (
                    field "process_id" (int process_id) (
                      field "configuration_hash" (text configuration_hash) (
                        field "validity_flags" (obj validity) (
                          field "telemetry_support_flags" (obj support)
                            (field "fields" (obj fields) end))))))))))))

-- `tuple(protocol_sample(sample, …) for sample in …)`, with one identifier for each sample.
unfoldable pub protocol_samples :
    Python
    → (Value → Result Fields)
    → (ℕ → String)
    → ℕ
    → String
    → List Fields
    → Result (List Fields)
unfolding protocol_sample
protocol_samples rt dict_of uuids index configuration_hash [] = ok []
protocol_samples rt dict_of uuids index configuration_hash (payload ∷ rest) = do
  sample ← protocol_sample rt dict_of (uuids index) configuration_hash payload
  others ← protocol_samples rt dict_of uuids (suc index) configuration_hash rest
  ok (sample ∷ others)
