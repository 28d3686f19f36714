-- ===== src/Central/Security.antt =====
-- src/commguard/central/security.py: signing, size limits and the privacy checks on samples;
-- `FieldReading` and the constants of src/commguard/schemas.py that they use.
use Prim.Native.String.{◌++◌ as append, len}
use package.text.Mathlib.Text.{find?}
use comm_guard.Prelude.{
  ℕ, suc, String, Bool, true, false, not, ◌&&◌, if◌then◌else◌, Option, none, some, List, [], ◌∷◌,
  map, ◌==◌, ltb, is_some, non_empty, some_of, Exception, value_error, Result, ok, err, ◌>>◌,
  raise_if,
}
use comm_guard.Central.Json.{
  Value, null, bool, int, float, text, arr, obj, Items, nil, cons, Fields, end, field,
}
use comm_guard.Central.Messages.{Payload, Python}

abbrev pub max_payload_bytes : ℕ
max_payload_bytes = 1048576

abbrev pub sample_keys : List String
sample_keys =
    "sample_id" ∷ "observed_at_utc" ∷ "monotonic_ns" ∷ "gpu_index" ∷ "gpu_uuid" ∷ "sequence_number"
    ∷ "rank" ∷ "process_id" ∷ "configuration_hash" ∷ "validity_flags" ∷ "telemetry_support_flags"
    ∷ "fields" ∷ []

abbrev pub reading_keys : List String
reading_keys = "value" ∷ "unit" ∷ "supported" ∷ "error" ∷ []

abbrev pub prohibited_key_fragments : List String
prohibited_key_fragments =
    "prompt" ∷ "token" ∷ "dataset" ∷ "example" ∷ "content" ∷ "weight" ∷ "credential" ∷ "secret"
    ∷ "api_key" ∷ []

-- `TELEMETRY_FIELDS`, with the units of `FIELD_UNITS`
abbrev pub field_units : List (String × String)
field_units =
    ("gpu_utilization_pct", "percent")
    ∷ ("memory_utilization_pct", "percent")
    ∷ ("memory_used_bytes", "bytes")
    ∷ ("memory_total_bytes", "bytes")
    ∷ ("power_draw_w", "watts")
    ∷ ("temperature_c", "celsius")
    ∷ ("sm_clock_mhz", "MHz")
    ∷ ("memory_clock_mhz", "MHz")
    ∷ ("pcie_tx_bytes_per_s", "bytes/second")
    ∷ ("pcie_rx_bytes_per_s", "bytes/second")
    ∷ []

abbrev pub telemetry_fields : List String
telemetry_fields = map (λ e. e.0) field_units

-- `canonical_bytes`
unfoldable pub canonical_bytes : Python → Payload → Bool → String
canonical_bytes rt message true = rt.dumps message
canonical_bytes rt message false = rt.dumps (record message { signature = none })

-- `sign_message`
unfoldable pub sign_message : Python → Payload → String → Result String
unfolding canonical_bytes
sign_message rt message secret = do
  raise_if (not (non_empty secret)) (value_error "HMAC secret must not be empty")
  ok (rt.hmac_sha256 secret (canonical_bytes rt message false))

-- `hmac.compare_digest` of two texts
unfoldable pub compare_digest : Python → String → String → Result Bool
compare_digest rt a b =
    if rt.is_ascii a && rt.is_ascii b
    then ok (a == b)
    else err (Exception.type_error "comparing strings with non-ASCII characters is not supported")

abbrev same_signature : Python → Option String → Result String → Result Bool
same_signature rt none computed = ok false
same_signature rt (some supplied) (ok expected) = compare_digest rt supplied expected
same_signature rt (some supplied) (err e) = err e

-- `verify_message`: the signature is computed only if one is supplied.
unfoldable pub verify_message : Python → Payload → String → Result Bool
unfolding sign_message compare_digest
verify_message rt message secret =
    same_signature rt message.signature (sign_message rt message secret)

-- `validate_payload_size`
unfoldable pub validate_payload_size : Python → Payload → ℕ → Result ℕ
unfolding canonical_bytes
validate_payload_size rt message maximum = do
  raise_if (ltb maximum 1) (value_error "maximum payload bytes must be positive")
  let size = len (canonical_bytes rt message true)
  raise_if (ltb maximum size) (
      value_error (
        append "payload_too_large: bytes="
          (append (rt.decimal size) (append " maximum=" (rt.decimal maximum)))))
  ok size

-- `fragment in text`
abbrev occurs : String → String → Bool
occurs fragment s = is_some (find? s fragment)

-- `any(fragment in key.lower() for fragment in PROHIBITED_KEY_FRAGMENTS)`
unfoldable pub is_prohibited : Python → String → Bool
is_prohibited rt key = some_of (λ fragment. occurs fragment (rt.lower key)) prohibited_key_fragments

abbrev prohibited : String → String → Exception
prohibited path key =
    value_error (append "privacy_violation: prohibited key " (append path (append "." key)))

-- `_reject_prohibited_keys`
unfoldable mutual
  unfolding is_prohibited

  pub reject_prohibited_keys : Python → String → Value → Result (Unit {0})
  reject_prohibited_keys rt path (obj fs) = reject_prohibited_fields rt path fs
  reject_prohibited_keys rt path (arr xs) = reject_prohibited_items rt path 0 xs
  reject_prohibited_keys rt path null = ok tt
  reject_prohibited_keys rt path (bool b) = ok tt
  reject_prohibited_keys rt path (int n) = ok tt
  reject_prohibited_keys rt path (float n) = ok tt
  reject_prohibited_keys rt path (text s) = ok tt

  pub reject_prohibited_fields : Python → String → Fields → Result (Unit {0})
  reject_prohibited_fields rt path end = ok tt
  reject_prohibited_fields rt path (field key child rest) = do
    raise_if (is_prohibited rt key) (prohibited path key)
    reject_prohibited_keys rt (append path (append "." key)) child
    reject_prohibited_fields rt path rest

  pub reject_prohibited_items : Python → String → ℕ → Items → Result (Unit {0})
  reject_prohibited_items rt path index nil = ok tt
  reject_prohibited_items rt path index (cons child rest) = do
    reject_prohibited_keys rt (append path (append "[" (append (rt.decimal index) "]"))) child
    reject_prohibited_items rt path (suc index) rest
