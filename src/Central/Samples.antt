-- ===== src/Central/Samples.antt =====
-- `validate_telemetry_samples` of src/commguard/central/security.py, with `FieldReading` of
-- src/commguard/schemas.py.
use Prim.Native.String.{◌++◌ as append}
use comm_guard.Prelude.{
  ℕ, zero, suc, ◌+◌, ◌-◌, ◌/◌, ◌^◌, String, Bool, true, false, not, ◌||◌, none, some, List, [], ◌∷◌,
  ◌==◌, ℤ, pos, negsuc, is_negative, is_zero, abs, leb, is_empty, if◌then◌else◌, non_empty, keep,
  contains, same_set, get_or, lookup, Exception, value_error, type_error, overflow_error,
  validation_error, Result, ok, err, ◌>>=◌, ◌>>◌, raise_if,
}
use comm_guard.Central.Json.{
  Value, null, bool, int, float, text, arr, obj, Fields, end, field, truthy, is_mapping, get,
  get_default, field_names,
}
use comm_guard.Central.Runtime.{DateTime, str}
use comm_guard.Central.Messages.{Python}
use comm_guard.Central.Security.{
  sample_keys, reading_keys, field_units, telemetry_fields, reject_prohibited_fields,
}

-- The denominator of a float.
unfoldable pub float_unit : ℕ
float_unit = 2 ^ 1074

truncate : ℤ → ℤ
truncate (pos n) = pos (n / float_unit)
truncate (negsuc n) = elim ((n + 1) / float_unit) [ zero ↦ pos 0 | suc m ↦ negsuc m ]

-- `int(value)`
unfoldable pub to_int : Python → Value → Result ℤ
unfolding truncate float_unit
to_int rt (int n) = ok n
to_int rt (bool true) = ok (pos 1)
to_int rt (bool false) = ok (pos 0)
to_int rt (float n) = ok (truncate n)
to_int rt (text s) = elim (rt.int_of_text s) [
  | none ↦ err (value_error "invalid literal for int()")
  | some n ↦ ok n
]
to_int rt null = err (type_error "int() argument must be a string or a number")
to_int rt (arr xs) = err (type_error "int() argument must be a string or a number")
to_int rt (obj fs) = err (type_error "int() argument must be a string or a number")

-- The least integer that `float` cannot round to a finite value.
unfoldable pub float_limit : ℕ
float_limit = 2 ^ 1024 - 2 ^ 970

-- `isinstance(value, (int, float)) and math.isfinite(float(value))`
unfoldable pub is_finite_number : Value → Result Bool
unfolding float_limit
is_finite_number (int n) =
    if leb float_limit (abs n)
    then err (overflow_error "int too large to convert to float")
    else ok true
is_finite_number (bool b) = ok true
is_finite_number (float n) = ok true
is_finite_number null = ok false
is_finite_number (text s) = ok false
is_finite_number (arr xs) = ok false
is_finite_number (obj fs) = ok false

abbrev pub is_null : Value → Bool
is_null null = true
is_null _ = false

pub record FieldReading : Type 0 where
  pub value : Value
  pub unit : String
  pub supported : Bool
  pub error : Value

-- The two branches of `FieldReading.validate`.
abbrev validate_supported : String → FieldReading → Result (Unit {0})
validate_supported path r = do
  raise_if (not (is_null r.error))
      (validation_error (append path ".error: must be null when supported"))
  raise_if (is_null r.value)
      (validation_error (append path ".value: must be present when supported"))
  finite ← is_finite_number r.value
  raise_if (not finite) (validation_error (append path ".value: must be a finite number"))

abbrev validate_unsupported : String → FieldReading → Result (Unit {0})
validate_unsupported path r = do
  raise_if (not (is_null r.value))
      (validation_error (append path ".value: unsupported values must be null"))
  raise_if (not (truthy r.error))
      (validation_error (append path ".error: unsupported values require a reason"))

-- `FieldReading.validate`
unfoldable pub validate_reading : String → FieldReading → Result (Unit {0})
unfolding is_finite_number
validate_reading path r = do
  raise_if (not (non_empty r.unit)) (validation_error (append path ".unit: must be non-empty"))
  if r.supported then validate_supported path r else validate_unsupported path r

abbrev construct_reading : Python → Fields → Value → Result FieldReading
construct_reading rt reading (bool supported) = ok (record {
  value = get reading "value";
  unit = str rt (get_default reading "unit" (text ""));
  supported = supported;
  error = get reading "error";
})
construct_reading rt reading _ = err (validation_error "field.supported: must be a boolean")

-- `FieldReading.from_dict`
unfoldable pub reading_from_dict : Python → Fields → Result FieldReading
unfolding validate_reading
reading_from_dict rt reading = do
  item ← construct_reading rt reading (get reading "supported")
  validate_reading "field" item
  ok item

-- `except (TypeError, ValueError)`
abbrev pub except_type_or_value {ℓ} : {A : Type ℓ} → Exception → Result A → Result A
except_type_or_value e (err (value_error s)) = err e
except_type_or_value e (err (type_error s)) = err e
except_type_or_value e r = r

-- `except (ValidationError, ValueError)`, whose handler quotes the message
abbrev except_validation_or_value {ℓ} : {A : Type ℓ} → (String → Exception) → Result A → Result A
except_validation_or_value e (err (value_error s)) = err (e s)
except_validation_or_value e (err (validation_error s)) = err (e s)
except_validation_or_value e r = r

-- What the first `try` block of the loop over the samples reads.
pub record Identity : Type 0 where
  pub observed : DateTime
  pub monotonic_ns : ℤ
  pub gpu_index : ℤ
  pub sequence_number : ℤ
  pub rank : ℤ
  pub process_id : ℤ

module _ (rt : Python) (index : ℕ) where
  abbrev invalid_sample : String → Exception
  invalid_sample detail =
      value_error (append "invalid_sample: sample " (append (rt.decimal index) detail))

  abbrev privacy_violation : String → Exception
  privacy_violation detail =
      value_error (append "privacy_violation: sample " (append (rt.decimal index) detail))

  abbrev checked_reading : String → Fields → Result FieldReading
  checked_reading name reading = do
    parsed ← reading_from_dict rt reading
    validate_reading (append "sample[" (append (rt.decimal index) (append "].fields." name))) parsed
    ok parsed

  abbrev reading_of : String → Value → Result Fields
  reading_of name (obj reading) =
      if same_set (field_names reading) reading_keys
      then ok reading
      else err (invalid_sample (append " field " (append name " reading keys must be exact")))
  reading_of name _ =
      err (invalid_sample (append " field " (append name " reading keys must be exact")))

  -- The loop over `fields.items()`.
  unfoldable pub validate_fields : Fields → Result (Unit {0})
  unfolding reading_from_dict
  validate_fields end = ok tt
  validate_fields (field name value rest) = do
    reading ← reading_of name value
    parsed ←
        except_validation_or_value
          (λ s. invalid_sample (append " field " (append name (append ": " s))))
          (checked_reading name reading)
    raise_if (not (parsed.unit == get_or "" (lookup name field_units)))
        (invalid_sample (append " field " (append name " unit mismatch")))
    validate_fields rest

  abbrev telemetry_of : Value → Result Fields
  telemetry_of (obj fields) =
      if same_set (field_names fields) telemetry_fields
      then ok fields
      else err (invalid_sample " telemetry fields must be exact")
  telemetry_of _ = err (invalid_sample " telemetry fields must be exact")

  abbrev observed_time : String → Result DateTime
  observed_time s = elim (rt.from_iso s) [
    | none ↦ err (value_error "Invalid isoformat string")
    | some t ↦ ok t
  ]

  abbrev parse_identity : Fields → Result Identity
  parse_identity sample = do
    observed ← observed_time (str rt (get sample "observed_at_utc"))
    monotonic_ns ← to_int rt (get sample "monotonic_ns")
    gpu_index ← to_int rt (get sample "gpu_index")
    sequence_number ← to_int rt (get sample "sequence_number")
    rank ← to_int rt (get sample "rank")
    process_id ← to_int rt (get sample "process_id")
    ok (record {
      observed = observed;
      monotonic_ns = monotonic_ns;
      gpu_index = gpu_index;
      sequence_number = sequence_number;
      rank = rank;
      process_id = process_id;
    })

  -- The long condition of the second check.
  unfoldable pub bad_identity : Fields → Identity → Bool
  bad_identity sample who =
      not who.observed.aware
      || (is_negative who.monotonic_ns
          || (is_negative who.gpu_index
              || (is_negative who.sequence_number
                  || (is_negative who.rank
                      || ((is_negative who.process_id || is_zero who.process_id)
                          || (not (truthy (get sample "gpu_uuid"))
                              || (not (truthy (get sample "configuration_hash"))
                                  || (not (is_mapping (get sample "validity_flags"))
                                      || not (
                                          is_mapping (get sample "telemetry_support_flags"))))))))))

  -- The body of the loop over the samples.
  unfoldable pub validate_sample : Fields → Result (Unit {0})
  unfolding bad_identity validate_fields
  validate_sample sample = do
    let unknown = keep (λ k. not (contains sample_keys k)) (field_names sample)
    raise_if (not (is_empty unknown))
        (privacy_violation (append " unknown keys " (rt.repr_sorted unknown)))
    let missing = keep (λ k. not (contains (field_names sample) k)) sample_keys
    raise_if (not (is_empty missing))
        (invalid_sample (append " missing keys " (rt.repr_sorted missing)))
    who ← except_type_or_value (invalid_sample " identity/timestamp") (parse_identity sample)
    raise_if (bad_identity sample who) (invalid_sample " identity/timestamp")
    fields ← telemetry_of (get sample "fields")
    validate_fields fields

validate_each : Python → ℕ → List Fields → Result (Unit {0})
validate_each rt index [] = ok tt
validate_each rt index (sample ∷ rest) = do
  validate_sample rt index sample
  validate_each rt (suc index) rest

-- `_reject_prohibited_keys(samples)`
unfoldable pub reject_prohibited_samples : Python → ℕ → List Fields → Result (Unit {0})
reject_prohibited_samples rt index [] = ok tt
reject_prohibited_samples rt index (sample ∷ rest) = do
  reject_prohibited_fields rt (append "payload[" (append (rt.decimal index) "]")) sample
  reject_prohibited_samples rt (suc index) rest

-- `validate_telemetry_samples`
unfoldable pub validate_telemetry_samples : Python → List Fields → Result (Unit {0})
unfolding validate_each reject_prohibited_samples
validate_telemetry_samples rt samples = do
  reject_prohibited_samples rt 0 samples
  validate_each rt 0 samples
