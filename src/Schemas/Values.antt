-- ===== src/Schemas/Values.antt =====
-- What the checks of src/commguard/schemas.py do with JSON values of any type: Python's tests,
-- comparisons and calls, with the exceptions that they raise; `_require`, `_utc_timestamp` and
-- `_supported_schema`.
use Prim.Native.String.{◌++◌ as append}
use comm_guard.Prelude.{
  ◌≡◌, refl, ap, ◌+◌, ◌-◌, ◌*◌, String, Bool, true, false, not, ◌&&◌, ◌||◌, Option, none, some,
  List, [], ◌∷◌, ◌==◌, str_eq→eq, ℤ, pos, negsuc, is_negative, is_zero, eq_z, ltz, abs, leb,
  is_empty, keep, every, contains, same_set, if◌then◌else◌, Exception, type_error, attribute_error,
  overflow_error, validation_error, Result, ok, err, ◌>>=◌, ◌>>◌, raise_if,
}
use comm_guard.Central.Json.{
  Value, null, bool, int, float, text, arr, obj, Items, nil, cons, Fields, end, field, get,
  field_names,
}
use comm_guard.Central.Runtime.{DateTime}
use comm_guard.Central.Messages.{Python}
use comm_guard.Central.Samples.{float_unit, float_limit}

-- Python calls on values: `dict(value)` of a value that is no mapping, the characters of a text, and
-- `math.isclose(measured, (stop - start) / 1e9, rel_tol=0.0, abs_tol=1e-6)`.
pub record Calls : Type 0 where
  pub dict_of : Value → Result Fields
  pub characters : String → List String
  pub is_close : (measured start stop : Value) → Result Bool

-- `_require`
abbrev pub require : Bool → String → String → Result (Unit {0})
require condition path message =
    raise_if (not condition) (validation_error (append path (append ": " message)))

-- `_require` of a condition that may raise.
abbrev pub require_that : Result Bool → String → String → Result (Unit {0})
require_that condition path message = condition >>= λ c. require c path message

infixr 4 ◌and◌
-- `a and b`
abbrev pub ◌and◌ : Result Bool → Result Bool → Result Bool
a and b = a >>= λ x. elim x [ true ↦ b | false ↦ ok false ]

-- An integer as a multiple of 2 ^ -1074.
scale : ℤ → ℤ
scale (pos n) = pos (n * float_unit)
scale (negsuc n) = negsuc ((n + 1) * float_unit - 1)

-- `isinstance(value, Mapping)` with the mapping.
abbrev pub mapping_of : Value → Option Fields
mapping_of (obj fs) = some fs
mapping_of _ = none

-- `value.get`, on the value's mapping
abbrev pub as_mapping : Value → Result Fields
as_mapping (obj fs) = ok fs
as_mapping _ = err (attribute_error "get")

abbrev pub is_null : Value → Bool
is_null null = true
is_null _ = false

-- `isinstance(value, bool)`, `isinstance(value, list)`, `isinstance(value, int)`
abbrev pub is_bool : Value → Bool
is_bool (bool b) = true
is_bool _ = false

abbrev pub is_list : Value → Bool
is_list (arr xs) = true
is_list _ = false

abbrev pub is_int : Value → Bool
is_int (int n) = true
is_int (bool b) = true
is_int _ = false

-- `isinstance(value, (int, float))`
abbrev pub is_number : Value → Bool
is_number (int n) = true
is_number (float n) = true
is_number (bool b) = true
is_number _ = false

-- `value is True`, `value is False`
abbrev pub is_true : Value → Bool
is_true (bool b) = b
is_true _ = false

abbrev pub is_false : Value → Bool
is_false (bool b) = not b
is_false _ = false

-- A number, scaled.
unfoldable pub scaled : Value → Option ℤ
unfolding scale
scaled (int n) = some (scale n)
scaled (float n) = some n
scaled (bool true) = some (scale (pos 1))
scaled (bool false) = some (pos 0)
scaled _ = none

abbrev not_ordered : Exception
not_ordered = type_error "'>=' not supported between these types"

abbrev at_least_scaled : Option ℤ → Option ℤ → Result Bool
at_least_scaled (some a) (some b) = ok (not (ltz a b))
at_least_scaled _ _ = err not_ordered

-- `a >= b`, where one of them is a number.
unfoldable pub at_least : Value → Value → Result Bool
unfolding scaled
at_least (int a) (int b) = ok (not (ltz a b))
at_least a b = at_least_scaled (scaled a) (scaled b)

abbrev pub at_least_zero : Value → Result Bool
at_least_zero v = at_least v (int (pos 0))

-- `value > 0`
abbrev pub above_zero : Value → Result Bool
above_zero (int n) = ok (not (is_negative n) && not (is_zero n))
above_zero (float n) = ok (not (is_negative n) && not (is_zero n))
above_zero (bool b) = ok b
above_zero _ = err not_ordered

-- `math.isfinite(value)`
unfoldable pub is_finite : Value → Result Bool
is_finite (int n) =
    if leb float_limit (abs n)
    then err (overflow_error "int too large to convert to float")
    else ok true
is_finite (float n) = ok true
is_finite (bool b) = ok true
is_finite _ = err (type_error "must be real number")

-- `value == n`, `value == s`
unfoldable pub equals_int : ℤ → Value → Bool
unfolding scale
equals_int n (int k) = eq_z k n
equals_int n (float k) = eq_z k (scale n)
equals_int n (bool true) = eq_z (pos 1) n
equals_int n (bool false) = eq_z (pos 0) n
equals_int n _ = false

abbrev pub equals_text : String → Value → Bool
equals_text s (text t) = t == s
equals_text s _ = false

-- `value in {…}`: a list or an object is not hashable.
unfoldable pub member : List String → Value → Result Bool
member names (text s) = ok (contains names s)
member names (arr xs) = err (type_error "unhashable type: 'list'")
member names (obj fs) = err (type_error "unhashable type: 'dict'")
member names _ = ok false

abbrev same_number : Option ℤ → Option ℤ → Bool
same_number (some a) (some b) = eq_z a b
same_number _ _ = false

-- `a == b`
unfoldable mutual
  unfolding scaled

  pub same_value : Value → Value → Bool
  same_value null b = is_null b
  same_value (text s) b = equals_text s b
  same_value (int n) b = same_number (scaled (int n)) (scaled b)
  same_value (float n) b = same_number (some n) (scaled b)
  same_value (bool c) b = same_number (scaled (bool c)) (scaled b)
  same_value (arr xs) (arr ys) = same_items xs ys
  same_value (obj fs) (obj gs) = same_set (field_names fs) (field_names gs) && same_fields fs gs
  same_value _ _ = false

  pub same_items : Items → Items → Bool
  same_items nil nil = true
  same_items (cons x xs) (cons y ys) = same_value x y && same_items xs ys
  same_items _ _ = false

  -- Each entry of the first is in the second.
  pub same_fields : Fields → Fields → Bool
  same_fields end gs = true
  same_fields (field k v fs) gs = same_value v (get gs k) && same_fields fs gs

-- The texts of an array, if all its items can be hashed; another value is not "0" or "1".
unfoldable pub hashed_items : Items → Result (List String)
hashed_items nil = ok []
hashed_items (cons (text s) xs) = hashed_items xs >>= λ rest. ok (s ∷ rest)
hashed_items (cons (arr ys) xs) = err (type_error "unhashable type: 'list'")
hashed_items (cons (obj fs) xs) = err (type_error "unhashable type: 'dict'")
hashed_items (cons x xs) = hashed_items xs >>= λ rest. ok ("" ∷ rest)

abbrev pub is_rank_pair : List String → Bool
is_rank_pair names = same_set names ("0" ∷ "1" ∷ [])

-- `set(value) == {"0", "1"}`
unfoldable pub has_both_ranks : Calls → Value → Result Bool
unfolding hashed_items
has_both_ranks c (obj fs) = ok (is_rank_pair (field_names fs))
has_both_ranks c (text s) = ok (is_rank_pair (c.characters s))
has_both_ranks c (arr xs) = hashed_items xs >>= λ names. ok (is_rank_pair names)
has_both_ranks c _ = err (type_error "object is not iterable")

abbrev check_aware : String → Option DateTime → Result (Unit {0})
check_aware path none = err (validation_error (append path ": expected an ISO-8601 timestamp"))
check_aware path (some t) = require t.aware path "timestamp must include a timezone"

-- `_utc_timestamp`
unfoldable pub utc_timestamp : Python → Value → String → Result (Unit {0})
utc_timestamp rt (text s) path = check_aware path (rt.from_iso s)
utc_timestamp rt _ path = err (attribute_error "replace")

-- `SUPPORTED_SCHEMA_VERSIONS`
abbrev pub legacy_version : String
legacy_version = "1.0"

abbrev pub current_version : String
current_version = "2.0"

-- `_supported_schema`
abbrev pub supported_schema : Value → Result (Unit {0})
supported_schema v =
    require_that (member (legacy_version ∷ current_version ∷ []) v) "schema_version"
      "unsupported version"

-- `_require_fields`
unfoldable pub require_fields : Fields → String → List String → Result (Unit {0})
unfolding keep
require_fields fs path names =
    require (is_empty (keep (λ k. not (contains (field_names fs) k)) names)) path
      "missing required fields"

-- `cls(**payload)`: every keyword without a default is given, and no unknown one.
unfoldable pub check_keywords : Exception → List String → List String → Fields → Result (Unit {0})
unfolding every
check_keywords invalid needed optional fs =
    raise_if
      (not (
        every (contains (field_names fs)) needed
        && every (λ k. contains needed k || contains optional k) (field_names fs)))
      invalid

-- Inversion of `_require`, before the rest of a block and at its end.
pub require-then {ℓ} :
    {R : Type ℓ} (c : Bool) (e : Exception) (rest : Result R) {final : R}
    → (raise_if (not c) e >> rest) ≡ ok final
    → (c ≡ true) × (rest ≡ ok final)
require-then true e rest done = (refl, done)
require-then false e rest done = cc

pub require_that-then {ℓ} :
    {R : Type ℓ} (c : Result Bool) (e : Exception) (rest : Result R) {final : R}
    → ((c >>= λ x. raise_if (not x) e) >> rest) ≡ ok final
    → (c ≡ ok true) × (rest ≡ ok final)
require_that-then (ok true) e rest done = (refl, done)
require_that-then (ok false) e rest done = cc
require_that-then (err raised) e rest done = cc

pub require-ok : (c : Bool) (e : Exception) {u : Unit {0}} → raise_if (not c) e ≡ ok u → c ≡ true
require-ok true e done = refl
require-ok false e done = cc

pub and-ok : (a b : Result Bool) → (a and b) ≡ ok true → (a ≡ ok true) × (b ≡ ok true)
and-ok (ok true) b done = (refl, done)
and-ok (ok false) b done = cc
and-ok (err e) b done = cc

pub equals_text-eq : (s : String) (v : Value) → equals_text s v ≡ true → v ≡ text s
equals_text-eq s (text t) h = ap text (str_eq→eq t s h)
equals_text-eq s (obj _) h = cc
equals_text-eq s (arr _) h = cc
equals_text-eq s (int _) h = cc
equals_text-eq s (float _) h = cc
equals_text-eq s (bool _) h = cc
equals_text-eq s null h = cc

pub as_mapping-obj : (v : Value) {fs : Fields} → as_mapping v ≡ ok fs → v ≡ obj fs
as_mapping-obj (obj gs) h = cc
as_mapping-obj (arr _) h = cc
as_mapping-obj (text _) h = cc
as_mapping-obj (int _) h = cc
as_mapping-obj (float _) h = cc
as_mapping-obj (bool _) h = cc
as_mapping-obj null h = cc
