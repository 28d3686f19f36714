-- ===== src/Participation/Ranks.antt =====
-- What accepted evidence of two ranks is.
use comm_guard.Prelude.{
  ℕ, suc, String, ◌≡◌, ◌≢◌, refl, Bool, true, false, not, ◌||◌, Option, none, some, List, [], ◌∷◌,
  map, ◌==◌, arith, eqb, ℤ, pos, length, every, some_of, contains, distinct, ◌⊎◌, inl, inr, eq_refl,
  ap, eq_z→eq, Bool-cases, none_pass, ok, raise_if-then,
}
use comm_guard.Participation.{
  RankResult, Participants, is_number, are_zero_one, validate_rank_results,
}

-- The two values, one way round or the other.
abbrev pub OnePerRank : Option ℤ → Option ℤ → Type 0
OnePerRank a b =
    ((a ≡ some (pos 0)) × (b ≡ some (pos 1))) ⊎ ((a ≡ some (pos 1)) × (b ≡ some (pos 0)))

not-false : (b : Bool) → not b ≡ false → b ≡ true
not-false true h = refl
not-false false h = cc

three_or_more : (n : ℕ) → eqb (suc (suc (suc n))) 2 ≡ false
three_or_more n = ground arith

or-false : (a b : Bool) → (a || b) ≡ false → (a ≡ false) × (b ≡ false)
or-false false b h = (refl, h)
or-false true b h = cc

is_number-eq : (n : ℤ) (a : Option ℤ) → is_number n a ≡ true → a ≡ some n
is_number-eq n none h = cc
is_number-eq n (some k) h = ap some (eq_z→eq k n h)

not_both : (a : Option ℤ) → is_number (pos 0) a ≡ true → is_number (pos 1) a ≡ false
not_both a h = rw (is_number-eq (pos 0) a h) refl

are_zero_one-OnePerRank : (a b : Option ℤ) → are_zero_one (a ∷ b ∷ []) ≡ true → OnePerRank a b
unfolding every some_of
are_zero_one-OnePerRank a b h = elim (Bool-cases (is_number (pos 0) a)) [
  | inl zero_first ↦ inl (
    is_number-eq (pos 0) a zero_first,
    is_number-eq (pos 1) b (ground (arith, not_both a zero_first)),
  )
  | inr other ↦ inr (is_number-eq (pos 1) a (ground arith), is_number-eq (pos 0) b (ground arith))
]

distinct-differ : (a b : String) → not (eqb (length (distinct (a ∷ b ∷ []))) 2) ≡ false → a ≢ b
unfolding distinct contains
distinct-differ a b h e = absurd (ground (arith, eq_refl b))

-- Accepted evidence has exactly two records, one of each rank and local rank, which completed and name
-- different GPUs.
pub validate_rank_results-two :
    (records : List RankResult) (p : Participants)
    → validate_rank_results records ≡ ok p
    → (first : RankResult) × (second : RankResult) × (records ≡ first ∷ second ∷ [])
      × OnePerRank first.rank second.rank
      × OnePerRank first.local_rank second.local_rank
      × (first.completed ≡ true)
      × (second.completed ≡ true)
      × (first.gpu_uuid ≢ second.gpu_uuid)
unfolding validate_rank_results
validate_rank_results-two [] p h = cc
validate_rank_results-two (a ∷ []) p h = cc
validate_rank_results-two (a ∷ b ∷ c ∷ rest) p h =
    let (two, _) = raise_if-then (not (eqb (length (a ∷ b ∷ c ∷ rest)) 2)) _ _ h in
    cc (two, three_or_more (length rest))
validate_rank_results-two (a ∷ b ∷ []) p h =
    let pair = a ∷ b ∷ [] in
    let (ranks, h2) = raise_if-then (not (are_zero_one (map (λ r. r.rank) pair))) _ _ h in
    let (locals, h3) = raise_if-then (not (are_zero_one (map (λ r. r.local_rank) pair))) _ _ h2 in
    let (_, h4) = raise_if-then (some_of (λ r. not (is_number (pos 2) r.world_size)) pair) _ _ h3 in
    let (_, h5) = raise_if-then (some_of (λ r. not (r.backend == "nccl")) pair) _ _ h4 in
    let (_, h6) =
      raise_if-then (some_of (λ r. not (is_number (pos 3) r.all_reduce_value)) pair) _ _ h5 in
    let (done, h7) = raise_if-then (some_of (λ r. not r.completed) pair) _ _ h6 in
    let uuids = distinct (map (λ r. r.gpu_uuid) pair) in
    let (apart, _) = raise_if-then (contains uuids "" || not (eqb (length uuids) 2)) _ _ h7 in
    let completions = none_pass (λ r. not r.completed) pair done in
    (
      a,
      b,
      refl,
      are_zero_one-OnePerRank a.rank b.rank (not-false _ ranks),
      are_zero_one-OnePerRank a.local_rank b.local_rank (not-false _ locals),
      not-false _ completions.0,
      not-false _ completions.1.0,
      distinct-differ a.gpu_uuid b.gpu_uuid (or-false _ _ apart).1,
    )
