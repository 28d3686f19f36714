-- ===== src/Prelude/Errors.antt =====
-- Python exceptions as values, each with its message.
use Prim.Native.String.{String}
use mathlib.Core.Path.{◌≡◌, refl}
use mathlib.Core.Logic.{◌⊎◌, inl, inr}
use mathlib.Core.Bool.{Bool, true, false}

pub data Exception : Type 0 where
  value_error type_error overflow_error runtime_error : String → Exception
  validation_error duration_requirement_error coverage_error file_exists_error key_error
        attribute_error artifact_exists_error calibration_error zero_division_error :
      String → Exception

-- A call returns a value or raises an exception.
pub data Result {ℓ} (R : Type ℓ) : Type ℓ where
  err : (raised : Exception) → Result R
  ok : (returned : R) → Result R

module _ {ℓ κ} {R : Type ℓ} {S : Type κ} where
  infixl 5 ◌>>=◌ ◌>>◌
  abbrev pub ◌>>=◌ : Result R → (R → Result S) → Result S
  err raised >>= next = err raised
  ok returned >>= next = next returned

  abbrev pub ◌>>◌ : Result R → Result S → Result S
  first >> second = first >>= λ _. second

  -- A block that returns has returned from its first call.
  pub >>=-eq-ok :
      (call : Result R) (next : R → Result S) {final : S}
      → (call >>= next) ≡ ok final
      → (mid : R) × (call ≡ ok mid) × (next mid ≡ ok final)
  >>=-eq-ok (err raised) next done = cc
  >>=-eq-ok (ok returned) next done = (returned, refl, done)

-- `if test: raise e`
abbrev pub raise_if : Bool → Exception → Result (Unit {0})
raise_if true e = err e
raise_if false e = ok tt

-- Inversion of a check that is followed by the rest of a block.
pub raise_if-then {ℓ} :
    {R : Type ℓ} (test : Bool) (e : Exception) (rest : Result R) {final : R}
    → (raise_if test e >> rest) ≡ ok final
    → (test ≡ false) × (rest ≡ ok final)
raise_if-then true e rest done = cc
raise_if-then false e rest done = (refl, done)

pub raise_if-ok :
    (test : Bool) (e : Exception) {u : Unit {0}} → raise_if test e ≡ ok u → test ≡ false
raise_if-ok true e done = cc
raise_if-ok false e done = refl

pub Result-cases {ℓ} :
    {R : Type ℓ} (r : Result R) → ((e : Exception) × (r ≡ err e)) ⊎ ((a : R) × (r ≡ ok a))
Result-cases (err e) = inl (e, refl)
Result-cases (ok a) = inr (a, refl)
