-- ===== src/Adversarial/Bounded.antt =====
-- What a value that `ParameterBound.validate` of src/commguard/adversarial.py accepts is.
use comm_guard.Prelude.{
  ℕ, ◌*◌, ◌/◌, ◌≤◌, ◌≡◌, refl, String, true, false, not, ◌&&◌, some, List, [], ◌∷◌, ◌∙◌, arith, ap,
  ℤ, pos, negsuc, ltz, abs, leb, to_nat, inl, inr, Bool-cases, All, contains, is_negative, ok,
  >>=-eq-ok, raise_if-then, raise_if-ok,
}
use comm_guard.Central.Json.{
  Value, null, bool, int, float, text, arr, obj, Fields, get, field_names,
}
use comm_guard.Central.Samples.{float_unit, float_limit}
use comm_guard.Schemas.Values.{scaled, require-then}
use comm_guard.Adversarial.{
  ParameterBound, Scaled, float_number, is_between, is_no_number, is_integral, validate_bound,
  validate_parameters, validate_shared, validate_declared,
}

-- The value is a number between the bounds, and a whole one where they ask for it.
abbrev pub IsWithin : ParameterBound → Value → Type 0
IsWithin b v =
    (n : ℕ) × (scaled v ≡ some (pos n))
    × (to_nat b.minimum ≤ n)
    × (n ≤ to_nat b.maximum)
    × (b.integral ≡ true → n / float_unit * float_unit ≡ n)

pub between-bounds :
    (lo hi n : ℤ)
    → is_negative lo ≡ false
    → (not (ltz n lo) && not (ltz hi n)) ≡ true
    → (k : ℕ) × (n ≡ pos k) × (to_nat lo ≤ k) × (k ≤ to_nat hi)
between-bounds (pos lo) (pos hi) (pos n) sign h = (n, refl, ground arith, ground arith)
between-bounds (pos lo) (negsuc hi) (pos n) sign h = absurd (ground arith)
between-bounds (pos lo) hi (negsuc n) sign h = cc
between-bounds (negsuc lo) hi n sign h = cc

pub float_number-scaled : (v : Value) {n : Scaled} → float_number v ≡ ok n → scaled v ≡ some n
unfolding scaled
float_number-scaled (int k) h = elim (Bool-cases (leb float_limit (abs k))) [
  | inl large ↦ cc (rw large at h)
  | inr small ↦ cc (rw small at h)
]
float_number-scaled (float k) h = cc
float_number-scaled (obj _) h = cc
float_number-scaled (arr _) h = cc
float_number-scaled (text _) h = cc
float_number-scaled (bool _) h = cc
float_number-scaled null h = cc

pub validate_bound-IsWithin :
    (b : ParameterBound) (name : String) (v : Value) {u : Unit {0}}
    → is_negative b.minimum ≡ false
    → validate_bound b name v ≡ ok u
    → IsWithin b v
unfolding validate_bound
validate_bound-IsWithin b name v sign h =
    let (_, h1) = raise_if-then (is_no_number v) _ _ h in
    let (n, read, h2) = >>=-eq-ok (float_number v) _ h1 in
    let (inside, h3) = require-then (is_between b n) _ _ h2 in
    let (k, e, low, high) = between-bounds b.minimum b.maximum n sign inside in
    (
      k,
      float_number-scaled v read ∙ ap some e,
      low,
      high,
      λ whole_number.
          let exact = raise_if-ok (b.integral && not (is_integral n)) _ h3 in
          let exact_k = rw (e, whole_number) at exact in ground arith,
    )

abbrev pub HasSign : String × ParameterBound → Type 0
HasSign p = is_negative p.1.minimum ≡ false

pub validate_parameters-All :
    (bounds : List (String × ParameterBound)) (config : Fields) {u : Unit {0}}
    → All HasSign bounds
    → validate_parameters bounds config ≡ ok u
    → All (λ p. (contains (field_names config) p.0 ≡ true) × IsWithin p.1 (get config p.0)) bounds
unfolding validate_parameters
validate_parameters-All [] config signs h = tt
validate_parameters-All ((name, b) ∷ rest) config signs h =
    let (there, h1) = require-then _ _ _ h in
    let (_, valid, h2) = >>=-eq-ok (validate_bound b name (get config name)) _ h1 in
    (
      (there, validate_bound-IsWithin b name _ signs.0 valid),
      validate_parameters-All rest config signs.1 h2,
    )

pub validate_shared-All :
    (bounds : List (String × ParameterBound)) (config : Fields) {u : Unit {0}}
    → All HasSign bounds
    → validate_shared bounds config ≡ ok u
    → All (λ p. contains (field_names config) p.0 ≡ true → IsWithin p.1 (get config p.0)) bounds
unfolding validate_shared
validate_shared-All [] config signs h = tt
validate_shared-All ((name, b) ∷ rest) config signs h =
    let (_, valid, h1) =
      >>=-eq-ok (validate_declared (contains (field_names config) name) b name (get config name)) _
        h in
    (
      λ there. validate_bound-IsWithin b name _ signs.0 (rw there at valid),
      validate_shared-All rest config signs.1 h1,
    )
