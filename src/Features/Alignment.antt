-- ===== src/Features/Alignment.antt =====
-- `align_samples_by_timestamp` of src/commguard/features/extraction.py. `time` is
-- `int(sample["monotonic_ns"])`, which a validated sample has as a natural number; the tolerance is in
-- whole nanoseconds.
pub mod Lengths
pub mod Matching
use comm_guard.Prelude.{
  ℕ, ◌+◌, ◌-◌, suc, Bool, true, false, not, Option, none, some, List, [], ◌∷◌, ℤ, pos, negsuc,
  is_negative, leb, distance, ltb, length, if◌then◌else◌, value_error, Result, ok, err, ◌>>=◌, ◌>>◌,
  raise_if,
}

module _ {ℓ} {A : Type ℓ} (time : A → ℕ) where
  -- `sorted(samples, key=…)`: insertion, which keeps the order of equal keys.
  unfoldable pub insert_by : A → List A → List A
  insert_by a [] = a ∷ []
  insert_by a (x ∷ xs) =
      let rest = insert_by a xs in if leb (time a) (time x) then a ∷ x ∷ xs else x ∷ rest

  unfoldable pub sort_by : List A → List A
  unfolding insert_by
  sort_by [] = []
  sort_by (x ∷ xs) = insert_by x (sort_by xs)

  -- The while loop, on the rows from the two indices on.
  unfoldable pub align_from : ℕ → List A → List A → List (A × A)
  align_from tolerance [] rs = []
  align_from tolerance (l ∷ ls) [] = []
  align_from tolerance (l ∷ ls) (r ∷ rs) = elim (leb (distance (time l) (time r)) tolerance) [
    | true ↦ (l, r) ∷ align_from tolerance ls rs
    | false ↦ elim (ltb (time l) (time r)) [
      | true ↦ align_from tolerance ls (r ∷ rs)
      | false ↦ align_from tolerance (l ∷ ls) rs
    ]
  ]

  -- `align_samples_by_timestamp`
  unfoldable pub align_samples_by_timestamp : List A → List A → ℤ → Result (List (A × A))
  unfolding sort_by align_from
  align_samples_by_timestamp left right (negsuc n) =
      err (value_error "tolerance_seconds cannot be negative")
  align_samples_by_timestamp left right (pos n) = ok (align_from n (sort_by left) (sort_by right))
