-- ===== src/Schemas/Sample.antt =====
-- `TelemetrySample` and `WorkloadEvent` of src/commguard/schemas.py.
use Prim.Native.String.{◌++◌ as append}
use comm_guard.Prelude.{
  String, Bool, true, false, not, ◌&&◌, ◌||◌, List, [], ◌∷◌, ◌==◌, ℤ, pos, negsuc, is_negative,
  same_set, get_or, lookup, keys, if◌then◌else◌, non_empty, type_error, attribute_error, Result, ok,
  err, ◌>>=◌, ◌>>◌,
}
use comm_guard.Central.Json.{Value, int, text, obj, Fields, end, field, get, get_default, truthy}
use comm_guard.Central.Runtime.{str}
use comm_guard.Central.Messages.{Python}
use comm_guard.Central.Security.{field_units, telemetry_fields}
use comm_guard.Central.Samples.{FieldReading, validate_reading, reading_from_dict, to_int}
use comm_guard.Schemas.Values.{
  Calls, require, require_that, ◌and◌, is_null, at_least_zero, above_zero, is_finite, equals_int,
  equals_text, utc_timestamp, supported_schema, check_keywords, current_version, legacy_version,
}

-- `LEGACY_TELEMETRY_FIELDS`
abbrev pub legacy_fields : List String
legacy_fields =
    "gpu_utilization_pct" ∷ "memory_utilization_pct" ∷ "memory_used_bytes" ∷ "power_draw_w"
    ∷ "temperature_c" ∷ "sm_clock_mhz" ∷ "memory_clock_mhz" ∷ "pcie_tx_bytes_per_s"
    ∷ "pcie_rx_bytes_per_s" ∷ []

-- A sample as `from_dict` makes it: the fields without a conversion keep the JSON value.
pub record TelemetrySample : Type 0 where
  pub run_id : String
  pub gpu_index : ℤ
  pub gpu_uuid : String
  pub sequence : ℤ
  pub wall_time_utc : String
  pub monotonic_ns : ℤ
  pub fields : List (String × FieldReading)
  pub target_sampling_interval_s : Value
  pub actual_sampling_interval_s : Value
  pub sampling_jitter_s : Value
  pub rank : Value
  pub process_id : Value
  pub raw_unit_metadata : Fields
  pub schema_version : String
  pub artifact_kind : String

-- The loop over `self.fields.items()`.
unfoldable pub validate_readings : List (String × FieldReading) → Result (Unit {0})
validate_readings [] = ok tt
validate_readings ((name, reading) ∷ rest) = do
  validate_reading (append "fields." name) reading
  require (reading.unit == get_or "" (lookup name field_units))
      (append "fields." (append name ".unit")) "unexpected unit"
  validate_readings rest

-- `value is not None and test(value)`
abbrev pub given_and : Value → (Value → Result Bool) → Result Bool
given_and v test = if is_null v then ok false else test v

-- `value is None or (math.isfinite(value) and value >= 0)`
abbrev pub null_or_magnitude : Value → Result Bool
null_or_magnitude v = if is_null v then ok true else is_finite v and at_least_zero v

-- The checks of a sample of the current schema.
unfoldable pub validate_current_sample : TelemetrySample → Result (Unit {0})
validate_current_sample s = do
  require_that (given_and s.target_sampling_interval_s above_zero) "target_sampling_interval_s"
      "must be positive for current telemetry"
  require_that (null_or_magnitude s.actual_sampling_interval_s) "actual_sampling_interval_s"
      "must be null or finite and non-negative"
  require_that (null_or_magnitude s.sampling_jitter_s) "sampling_jitter_s"
      "must be null or finite and non-negative"
  require_that (given_and s.rank at_least_zero) "rank" "must be non-negative"
  require_that (given_and s.process_id above_zero) "process_id" "must be positive"
  require
      (equals_text "KB/second (NVML API)" (get s.raw_unit_metadata "pcie_nvml_raw_unit")
        && equals_int (pos 1024) (get s.raw_unit_metadata "pcie_bytes_multiplier"))
      "raw_unit_metadata" "must preserve the NVML PCIe conversion"

-- `actual in valid_field_sets`
abbrev pub has_known_fields : TelemetrySample → Bool
has_known_fields s =
    same_set (keys s.fields) telemetry_fields
    || (s.schema_version == legacy_version && same_set (keys s.fields) legacy_fields)

-- `TelemetrySample.validate`
unfoldable pub validate_telemetry_sample : Python → TelemetrySample → Result (Unit {0})
unfolding validate_readings validate_current_sample
validate_telemetry_sample rt s = do
  supported_schema (text s.schema_version)
  require (non_empty s.run_id) "run_id" "must be non-empty"
  require (not (is_negative s.gpu_index)) "gpu_index" "must be non-negative"
  require (not (is_negative s.sequence)) "sequence" "must be non-negative"
  require (not (is_negative s.monotonic_ns)) "monotonic_ns" "must be non-negative"
  utc_timestamp rt (text s.wall_time_utc) "wall_time_utc"
  require (has_known_fields s) "fields" "expected a schema-compatible field set"
  validate_readings s.fields
  if s.schema_version == current_version then validate_current_sample s else ok tt

-- `{name: FieldReading.from_dict(value) for name, value in … .items()}`
unfoldable pub readings_from_dict : Python → Fields → Result (List (String × FieldReading))
readings_from_dict rt end = ok []
readings_from_dict rt (field name (obj reading) rest) = do
  parsed ← reading_from_dict rt reading
  others ← readings_from_dict rt rest
  ok ((name, parsed) ∷ others)
readings_from_dict rt (field name _ rest) = err (attribute_error "get")

-- `dict(value)`
abbrev pub as_dict : Calls → Value → Result Fields
as_dict c (obj fs) = ok fs
as_dict c v = c.dict_of v

-- `TelemetrySample.from_dict`
unfoldable pub sample_from_dict : Calls → Python → Fields → Result TelemetrySample
unfolding readings_from_dict validate_telemetry_sample
sample_from_dict c rt fs = do
  let run_id = str rt (get_default fs "run_id" (text ""))
  gpu_index ← to_int rt (get_default fs "gpu_index" (int (negsuc 0)))
  let gpu_uuid = str rt (get_default fs "gpu_uuid" (text ""))
  sequence ← to_int rt (get_default fs "sequence" (int (negsuc 0)))
  let wall = str rt (get_default fs "wall_time_utc" (text ""))
  monotonic_ns ← to_int rt (get_default fs "monotonic_ns" (int (negsuc 0)))
  named ← as_dict c (get_default fs "fields" (obj end))
  readings ← readings_from_dict rt named
  metadata ← as_dict c (get_default fs "raw_unit_metadata" (obj end))
  let item : TelemetrySample = record {
    run_id = run_id;
    gpu_index = gpu_index;
    gpu_uuid = gpu_uuid;
    sequence = sequence;
    wall_time_utc = wall;
    monotonic_ns = monotonic_ns;
    fields = readings;
    target_sampling_interval_s = get fs "target_sampling_interval_s";
    actual_sampling_interval_s = get fs "actual_sampling_interval_s";
    sampling_jitter_s = get fs "sampling_jitter_s";
    rank = get fs "rank";
    process_id = get fs "process_id";
    raw_unit_metadata = metadata;
    schema_version = str rt (get_default fs "schema_version" (text ""));
    artifact_kind = str rt (get_default fs "artifact_kind" (text ""));
  }
  validate_telemetry_sample rt item
  ok item

-- `WorkloadEvent(**data)`: the keywords.
abbrev event_keywords : List String
event_keywords = "run_id" ∷ "rank" ∷ "local_rank" ∷ "event" ∷ "wall_time_utc" ∷ "monotonic_ns" ∷ []

-- `WorkloadEvent(**data).validate()`
unfoldable pub validate_event : Python → Fields → Result (Unit {0})
validate_event rt fs = do
  check_keywords (type_error "WorkloadEvent keywords") event_keywords
      ("details" ∷ "schema_version" ∷ "artifact_kind" ∷ []) fs
  supported_schema (get_default fs "schema_version" (text legacy_version))
  require (truthy (get fs "run_id")) "run_id" "must be non-empty"
  require_that (at_least_zero (get fs "rank") and at_least_zero (get fs "local_rank")) "rank"
      "must be non-negative"
  require (truthy (get fs "event")) "event" "must be non-empty"
  utc_timestamp rt (get fs "wall_time_utc") "wall_time_utc"
