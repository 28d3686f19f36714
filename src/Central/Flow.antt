-- ===== src/Central/Flow.antt =====
-- A function body with early returns: a check goes on, returns a value, or lets an exception out.
use comm_guard.Prelude.{
  ◌≡◌, refl, Bool, true, false, Exception, Result, ok, err, value_error, type_error,
}
use Prim.Native.String.{String}

pub data Flow {ℓ} (R A : Type ℓ) : Type ℓ where
  go : A → Flow R A
  answer : R → Flow R A
  escape : Exception → Flow R A

module _ {ℓ} {R : Type ℓ} where
  infixl 5 ◌>>=◌ ◌>>◌
  abbrev pub ◌>>=◌ : {A B : Type ℓ} → Flow R A → (A → Flow R B) → Flow R B
  go a >>= f = f a
  answer r >>= f = answer r
  escape e >>= f = escape e

  abbrev pub ◌>>◌ : {A B : Type ℓ} → Flow R A → Flow R B → Flow R B
  m >> k = m >>= λ _. k

  -- `if test: return r`
  abbrev pub return_if : Bool → R → Flow R (Unit {ℓ})
  return_if true r = answer r
  return_if false r = go tt

  -- A call with no handler around it.
  abbrev pub call : {A : Type ℓ} → Result A → Flow R A
  call (ok a) = go a
  call (err e) = escape e

  -- `except ValueError` with a handler that returns
  abbrev pub except_value : {A : Type ℓ} → (String → R) → Result A → Flow R A
  except_value f (ok a) = go a
  except_value f (err (value_error s)) = answer (f s)
  except_value f (err e) = escape e

  -- `except (TypeError, ValueError)` with a handler that returns
  abbrev pub except_type_value : {A : Type ℓ} → (String → R) → Result A → Flow R A
  except_type_value f (ok a) = go a
  except_type_value f (err (value_error s)) = answer (f s)
  except_type_value f (err (type_error s)) = answer (f s)
  except_type_value f (err e) = escape e

  pub >>=-eq-go :
      {A B : Type ℓ} (m : Flow R A) (f : A → Flow R B) {b : B}
      → (m >>= f) ≡ go b
      → (a : A) × (m ≡ go a) × (f a ≡ go b)
  >>=-eq-go (go a) f h = (a, refl, h)
  >>=-eq-go (answer r) f h = cc
  >>=-eq-go (escape e) f h = cc

  pub return_if-then :
      {A : Type ℓ} (b : Bool) (r : R) (rest : Flow R A) {a : A}
      → (return_if b r >> rest) ≡ go a
      → (b ≡ false) × (rest ≡ go a)
  return_if-then true r rest h = cc
  return_if-then false r rest h = (refl, h)
