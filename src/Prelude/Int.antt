-- ===== src/Prelude/Int.antt =====
-- Python integers, over the native numbers.
use Prim.Native.Nat.{ℕ, zero, suc, ◌+◌, ◌-◌}
use mathlib.Core.Path.{◌≡◌, ap}
use mathlib.Core.Bool.{Bool, true, false}
use mathlib.Core.List.{List, [], ◌∷◌}
use native.Mathlib.Omega.{arith}
use comm_guard.Prelude.Tests.{leb, ltb, eqb, if◌then◌else◌}

-- `negsuc n` is -(n + 1).
pub data ℤ : Type 0 where
  pos : ℕ → ℤ
  negsuc : ℕ → ℤ

abbrev pub is_negative : ℤ → Bool
is_negative (pos n) = false
is_negative (negsuc n) = true

abbrev pub is_zero : ℤ → Bool
is_zero (pos zero) = true
is_zero (pos (suc n)) = false
is_zero (negsuc n) = false

-- The value of an integer that a check has found not to be negative.
abbrev pub to_nat : ℤ → ℕ
to_nat (pos n) = n
to_nat (negsuc n) = 0

abbrev pub abs : ℤ → ℕ
abs (pos n) = n
abs (negsuc n) = n + 1

-- a < b
abbrev pub ltz : ℤ → ℤ → Bool
ltz (pos a) (pos b) = ltb a b
ltz (pos a) (negsuc b) = false
ltz (negsuc a) (pos b) = true
ltz (negsuc a) (negsuc b) = ltb b a

-- The distance between two readings of a clock.
abbrev pub distance : ℕ → ℕ → ℕ
distance a b = if leb b a then a - b else b - a

-- n + 1
abbrev pub next_z : ℤ → ℤ
next_z (pos n) = pos (n + 1)
next_z (negsuc zero) = pos 0
next_z (negsuc (suc n)) = negsuc n

abbrev pub eq_z : ℤ → ℤ → Bool
eq_z (pos a) (pos b) = eqb a b
eq_z (negsuc a) (negsuc b) = eqb a b
eq_z a b = false

-- a - b
abbrev pub minus : ℕ → ℕ → ℤ
minus a b = if leb b a then pos (a - b) else negsuc (b - a - 1)

-- `sorted(set(numbers))`
abbrev insert_z : ℤ → List ℤ → List ℤ
insert_z a [] = a ∷ []
insert_z a (x ∷ xs) = if eq_z a x then x ∷ xs else if ltz a x then a ∷ x ∷ xs else x ∷ insert_z a xs

abbrev pub sorted_set_z : List ℤ → List ℤ
sorted_set_z [] = []
sorted_set_z (x ∷ xs) = insert_z x (sorted_set_z xs)

pub eq_z→eq : (a b : ℤ) → eq_z a b ≡ true → a ≡ b
eq_z→eq (pos a) (pos b) h = ap pos (ground arith)
eq_z→eq (negsuc a) (negsuc b) h = ap negsuc (ground arith)
eq_z→eq (pos a) (negsuc b) h = cc
eq_z→eq (negsuc a) (pos b) h = cc
