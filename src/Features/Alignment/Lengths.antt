-- ===== src/Features/Alignment/Lengths.antt =====
-- The numbers of pairs and of samples of `align_samples_by_timestamp` of src/commguard/features/extraction.py.
use comm_guard.Prelude.{◌≡◌, refl, ℕ, suc, ◌≤◌, List, [], ◌∷◌, ℤ, pos, negsuc, length, arith, ok}
use comm_guard.Features.Alignment.{insert_by, sort_by, align_samples_by_timestamp}
use comm_guard.Features.Alignment.Matching.{
  IsMatching, done, skip_left, skip_right, pair, align_samples_by_timestamp-IsMatching,
}

module _ {ℓ} {A : Type ℓ} (time : A → ℕ) where
  length-insert_by : (a : A) (xs : List A) → length (insert_by time a xs) ≡ suc (length xs)
  unfolding insert_by
  length-insert_by a [] = refl
  length-insert_by a (x ∷ xs) = ground (arith, length-insert_by a xs)

  length-sort_by : (xs : List A) → length (sort_by time xs) ≡ length xs
  unfolding sort_by
  length-sort_by [] = refl
  length-sort_by (x ∷ xs) = ground (arith, length-insert_by x (sort_by time xs), length-sort_by xs)

  matching_short :
      {tolerance : ℕ} {ls rs : List A} {ps : List (A × A)}
      → IsMatching time tolerance ls rs ps
      → (length ps ≤ length ls) × (length ps ≤ length rs)
  matching_short done = (omega arith, omega arith)
  matching_short (skip_left m) = let (h, k) = matching_short m in (omega arith, omega arith)
  matching_short (skip_right m) = let (h, k) = matching_short m in (omega arith, omega arith)
  matching_short (pair near m) = let (h, k) = matching_short m in (omega arith, omega arith)

  pub align_samples_by_timestamp-length :
      (left right : List A) (tolerance : ℤ) (pairs : List (A × A))
      → align_samples_by_timestamp time left right tolerance ≡ ok pairs
      → (length pairs ≤ length left) × (length pairs ≤ length right)
  unfolding align_samples_by_timestamp
  align_samples_by_timestamp-length left right (negsuc n) pairs e = cc
  align_samples_by_timestamp-length left right (pos n) pairs e =
      let (found, e', m, _) = align_samples_by_timestamp-IsMatching time left right n [] done in
      let same : found ≡ pairs = cc (e, e') in
      let (h, k) = matching_short (rw same at m) in
      (rw (length-sort_by left) at h, rw (length-sort_by right) at k)

  pub align_samples_by_timestamp-pairs :
      (left right : List A) (tolerance : ℤ) (pairs : List (A × A))
      → align_samples_by_timestamp time left right tolerance ≡ ok pairs
      → (n : ℕ) × (tolerance ≡ pos n)
        × IsMatching time n (sort_by time left) (sort_by time right) pairs
  unfolding align_samples_by_timestamp
  align_samples_by_timestamp-pairs left right (negsuc n) pairs e = cc
  align_samples_by_timestamp-pairs left right (pos n) pairs e =
      let (found, e', m, _) = align_samples_by_timestamp-IsMatching time left right n [] done in
      let same : found ≡ pairs = cc (e, e') in (n, refl, rw same at m)
