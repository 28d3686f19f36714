-- ===== src/Features/Alignment/Matching.antt =====
-- What the alignment finds: a largest set of pairs that keeps both orders.
use comm_guard.Prelude.{
  ◌≡◌, refl, ℕ, suc, ◌≤◌, ◌<◌, List, [], ◌∷◌, pos, leb, ltb, distance, length, All, Bool-cases, inl,
  inr, arith, ok,
}
use comm_guard.Features.Alignment.{insert_by, sort_by, align_from, align_samples_by_timestamp}

module _ {ℓ} {A : Type ℓ} (time : A → ℕ) where
  -- Rows in the order of their times.
  abbrev pub IsSorted : List A → Type 0
  IsSorted [] = Unit {0}
  IsSorted (x ∷ xs) = All (λ y. time x ≤ time y) xs × IsSorted xs

  -- Pairs of a left and a right row, in the order of both lists: no row is in two pairs, and the times
  -- of a pair differ by the tolerance at most.
  pub data IsMatching (tolerance : ℕ) : List A → List A → List (A × A) → Type ℓ where
    done : {ls rs : List A} → IsMatching tolerance ls rs []
    skip_left :
        {l : A} {ls rs : List A} {ps : List (A × A)}
        → IsMatching tolerance ls rs ps
        → IsMatching tolerance (l ∷ ls) rs ps
    skip_right :
        {r : A} {ls rs : List A} {ps : List (A × A)}
        → IsMatching tolerance ls rs ps
        → IsMatching tolerance ls (r ∷ rs) ps
    pair :
        {l r : A} {ls rs : List A} {ps : List (A × A)}
        → distance (time l) (time r) ≤ tolerance
        → IsMatching tolerance ls rs ps
        → IsMatching tolerance (l ∷ ls) (r ∷ rs) ((l, r) ∷ ps)

  All-insert_by :
      (k : ℕ) (a : A) (xs : List A)
      → k ≤ time a
      → All (λ y. k ≤ time y) xs
      → All (λ y. k ≤ time y) (insert_by time a xs)
  unfolding insert_by
  All-insert_by k a [] h hs = (h, tt)
  All-insert_by k a (x ∷ xs) h hs = elim (Bool-cases (leb (time a) (time x))) [
    | inl e ↦ rw e (h, hs)
    | inr e ↦ rw e (hs.0, All-insert_by k a xs h hs.1)
  ]

  All-above : (j k : ℕ) (xs : List A) → j ≤ k → All (λ y. k ≤ time y) xs → All (λ y. j ≤ time y) xs
  All-above j k [] h hs = tt
  All-above j k (x ∷ xs) h hs = (let first = hs.0 in omega arith, All-above j k xs h hs.1)

  insert_by-IsSorted : (a : A) (xs : List A) → IsSorted xs → IsSorted (insert_by time a xs)
  unfolding insert_by
  insert_by-IsSorted a [] s = (tt, tt)
  insert_by-IsSorted a (x ∷ xs) s = elim (Bool-cases (leb (time a) (time x))) [
    | inl e ↦
        let low : time a ≤ time x = ground arith in
        rw e ((low, All-above (time a) (time x) xs low s.0), s)
    | inr e ↦
        let low : time x ≤ time a = ground arith in
        rw e (All-insert_by (time x) a xs low s.0, insert_by-IsSorted a xs s.1)
  ]

  pub sort_by-IsSorted : (xs : List A) → IsSorted (sort_by time xs)
  unfolding sort_by
  sort_by-IsSorted [] = tt
  sort_by-IsSorted (x ∷ xs) = insert_by-IsSorted x (sort_by time xs) (sort_by-IsSorted xs)

  module _ (tolerance : ℕ) where
    align_from-IsMatching :
        (ls rs : List A) → IsMatching tolerance ls rs (align_from time tolerance ls rs)
    unfolding align_from
    align_from-IsMatching [] rs = IsMatching.done
    align_from-IsMatching (l ∷ ls) [] = IsMatching.done
    align_from-IsMatching (l ∷ ls) (r ∷ rs) =
        elim (Bool-cases (leb (distance (time l) (time r)) tolerance)) [
          | inl near ↦
              rw (near, align_from) (IsMatching.pair (ground arith) (align_from-IsMatching ls rs))
          | inr far ↦ elim (Bool-cases (ltb (time l) (time r))) [
            | inl before ↦
                rw (far, before, align_from)
                  (IsMatching.skip_left (align_from-IsMatching ls (r ∷ rs)))
            | inr after ↦
                rw (far, after, align_from)
                  (IsMatching.skip_right (align_from-IsMatching (l ∷ ls) rs))
          ]
        ]

    -- A matching without one row has lost one pair at most.
    without_right :
        {r : A} {ls rs : List A} {ps : List (A × A)}
        → IsMatching tolerance ls (r ∷ rs) ps
        → (qs : List (A × A)) × IsMatching tolerance ls rs qs × (length ps ≤ suc (length qs))
    without_right done = ([], IsMatching.done, omega arith)
    without_right (skip_left m) =
        let (qs, n, h) = without_right m in (qs, IsMatching.skip_left n, h)
    without_right {ps = ps} (skip_right m) = (ps, m, omega arith)
    without_right (pair {ps = ps} near m) = (ps, IsMatching.skip_left m, omega arith)

    without_left :
        {l : A} {ls rs : List A} {ps : List (A × A)}
        → IsMatching tolerance (l ∷ ls) rs ps
        → (qs : List (A × A)) × IsMatching tolerance ls rs qs × (length ps ≤ suc (length qs))
    without_left done = ([], IsMatching.done, omega arith)
    without_left {ps = ps} (skip_left m) = (ps, m, omega arith)
    without_left (skip_right m) =
        let (qs, n, h) = without_left m in (qs, IsMatching.skip_right n, h)
    without_left (pair {ps = ps} near m) = (ps, IsMatching.skip_right m, omega arith)

    without_both :
        {l r : A} {ls rs : List A} {ps : List (A × A)}
        → IsMatching tolerance (l ∷ ls) (r ∷ rs) ps
        → (qs : List (A × A)) × IsMatching tolerance ls rs qs × (length ps ≤ suc (length qs))
    without_both done = ([], IsMatching.done, omega arith)
    without_both (skip_left m) = without_right m
    without_both (skip_right m) = without_left m
    without_both (pair {ps = ps} near m) = (ps, m, omega arith)

    -- A row that is near none of the others is in no pair.
    far_left :
        {l : A} {ls rs : List A} {ps : List (A × A)}
        → All (λ r. tolerance < distance (time l) (time r)) rs
        → IsMatching tolerance (l ∷ ls) rs ps
        → IsMatching tolerance ls rs ps
    far_left far done = IsMatching.done
    far_left far (skip_left m) = m
    far_left far (skip_right m) = IsMatching.skip_right (far_left far.1 m)
    far_left far (pair near m) = let first = far.0 in absurd (omega arith)

    far_right :
        {r : A} {ls rs : List A} {ps : List (A × A)}
        → All (λ l. tolerance < distance (time l) (time r)) ls
        → IsMatching tolerance ls (r ∷ rs) ps
        → IsMatching tolerance ls rs ps
    far_right far done = IsMatching.done
    far_right far (skip_left m) = IsMatching.skip_left (far_right far.1 m)
    far_right far (skip_right m) = m
    far_right far (pair near m) = let first = far.0 in absurd (omega arith)

    later_far :
        (a b : ℕ) (xs : List A)
        → a < b
        → tolerance < distance a b
        → All (λ y. b ≤ time y) xs
        → All (λ y. tolerance < distance a (time y)) xs
    later_far a b [] h far hs = tt
    later_far a b (x ∷ xs) h far hs =
        (let first = hs.0 in ground arith, later_far a b xs h far hs.1)

    later_far_right :
        (a b : ℕ) (xs : List A)
        → b ≤ a
        → tolerance < distance a b
        → All (λ y. a ≤ time y) xs
        → All (λ y. tolerance < distance (time y) b) xs
    later_far_right a b [] h far hs = tt
    later_far_right a b (x ∷ xs) h far hs =
        (let first = hs.0 in ground arith, later_far_right a b xs h far hs.1)

    no_left : {rs : List A} {ps : List (A × A)} → IsMatching tolerance [] rs ps → length ps ≤ 0
    no_left done = omega arith
    no_left (skip_right m) = no_left m

    no_right : {ls : List A} {ps : List (A × A)} → IsMatching tolerance ls [] ps → length ps ≤ 0
    no_right done = omega arith
    no_right (skip_left m) = no_right m

    align_from_largest :
        (ls rs : List A) (ps : List (A × A))
        → IsSorted ls
        → IsSorted rs
        → IsMatching tolerance ls rs ps
        → length ps ≤ length (align_from time tolerance ls rs)
    unfolding align_from
    align_from_largest [] rs ps sl sr m = no_left m
    align_from_largest (l ∷ ls) [] ps sl sr m = no_right m
    align_from_largest (l ∷ ls) (r ∷ rs) ps sl sr m =
        elim (Bool-cases (leb (distance (time l) (time r)) tolerance)) [
          | inl near ↦
              let (qs, n, h) = without_both m in
              let shorter = align_from_largest ls rs qs sl.1 sr.1 n in
              rw (near, align_from) (omega arith)
          | inr far ↦
              let apart : tolerance < distance (time l) (time r) = ground arith in
              elim (Bool-cases (ltb (time l) (time r))) [
                | inl before ↦
                    let all : All (λ y. tolerance < distance (time l) (time y)) (r ∷ rs) =
                      (apart, later_far (time l) (time r) rs (ground arith) apart sr.0) in
                    rw (far, before, align_from)
                      (align_from_largest ls (r ∷ rs) ps sl.1 sr (far_left all m))
                | inr after ↦
                    let all : All (λ y. tolerance < distance (time y) (time r)) (l ∷ ls) =
                      (apart, later_far_right (time l) (time r) ls (ground arith) apart sl.0) in
                    rw (far, after, align_from)
                      (align_from_largest (l ∷ ls) rs ps sl sr.1 (far_right all m))
              ]
        ]

  -- With a tolerance that is not negative, the alignment returns pairs of the sorted lists that keep
  -- both orders, use no row twice and differ by the tolerance at most; any other such list of pairs is
  -- at most as long.
  pub align_samples_by_timestamp-IsMatching :
      (left right : List A) (tolerance : ℕ) (others : List (A × A))
      → IsMatching tolerance (sort_by time left) (sort_by time right) others
      → (pairs : List (A × A)) × (align_samples_by_timestamp time left right (pos tolerance)
          ≡ ok pairs)
        × IsMatching tolerance (sort_by time left) (sort_by time right) pairs
        × (length others ≤ length pairs)
  unfolding align_samples_by_timestamp
  align_samples_by_timestamp-IsMatching left right tolerance others m =
      let ls = sort_by time left in
      let rs = sort_by time right in
      (
        align_from time tolerance ls rs,
        refl,
        align_from-IsMatching tolerance ls rs,
        align_from_largest tolerance ls rs others (sort_by-IsSorted left) (sort_by-IsSorted right)
            m,
      )
