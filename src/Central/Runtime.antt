-- ===== src/Central/Runtime.antt =====
-- What the central prototype takes from the Python runtime and its standard library.
use comm_guard.Prelude.{ℕ, String, Option, List, ℤ, Bool}
use comm_guard.Central.Json.{Value, text}

-- An aware `datetime` is its UTC instant, in whole microseconds from a fixed origin below
-- `datetime.min`. `aware` says whether `tzinfo` is set.
pub record DateTime : Type 0 where
  pub micros : ℕ
  pub aware : Bool

pub record Runtime {ℓ} (Payload : Type ℓ) : Type ℓ where
  -- `json.dumps(payload, sort_keys=True, …).encode()`, whose text is ASCII
  pub dumps : Payload → String
  -- `hmac.new(secret, message, sha256).hexdigest()`
  pub hmac_sha256 : (secret message : String) → String
  -- whether a text is ASCII, which `hmac.compare_digest` demands of the texts it compares
  pub is_ascii : String → Bool
  -- `hashlib.sha256(message).hexdigest()`
  pub sha256 : String → String
  -- `datetime.fromisoformat(text.replace("Z", "+00:00"))`, `none` for a `ValueError`
  pub from_iso : String → Option DateTime
  -- `moment.isoformat()`
  pub isoformat : DateTime → String
  -- `int(text)`, `none` for a `ValueError`
  pub int_of_text : String → Option ℤ
  -- `str(value)` of a value that is no text
  pub str_of_value : Value → String
  -- `text.lower()`
  pub lower : String → String
  -- `repr` of a text, a number's decimal digits, microseconds as seconds in the format `.6f`,
  -- and `sorted(texts)` printed as a list
  pub repr : String → String
  pub decimal : ℕ → String
  pub seconds : ℕ → String
  pub repr_sorted : List String → String
  -- `statistics.fmean` of numbers, at least one of them
  pub fmean : List Value → Value
  -- the message of the `TypeError` of a constructor call with wrong keywords
  pub call_error : Payload → String

-- `str(value)`
abbrev pub str {ℓ} : {Payload : Type ℓ} → Runtime Payload → Value → String
str rt (text s) = s
str rt v = rt.str_of_value v
