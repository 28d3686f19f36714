-- ===== src/Evaluation/Strategies/Strata.antt =====
-- Each stratum of a stratified split reaches all three splits.
use Prim.Native.String.{◌++◌ as append}
use comm_guard.Prelude.{
  ℕ, zero, suc, ◌+◌, ◌-◌, ◌≤◌, ◌<◌, max, String, ◌≡◌, refl, Bool, true, false, ◌||◌, some, List, [],
  ◌∷◌, map, arith, ◌==◌, eq_refl, ltb, ltb→lt, le→ltb, Bool-cases, inl, inr, length, contains, ok,
}
use comm_guard.Evaluation.Groups.{Assignments}
use comm_guard.Evaluation.Strategies.{
  Library, make_room, place_split, assign_places, assign_stratum,
}

-- A place for each of the three splits.
abbrev HasRoom : ℕ → ℕ → ℕ → Type 0
HasRoom n test validation = (1 ≤ test) × (1 ≤ validation) × (test + validation < n)

-- From counts of at least one and at least three runs, the loop ends within its fuel, and never by
-- the exception: it leaves at least one run for each split.
pub make_room-HasRoom :
    (fuel n test validation : ℕ)
    → 3 ≤ n
    → 1 ≤ test
    → 1 ≤ validation
    → test + validation ≤ fuel + 1
    → (t : ℕ) × (v : ℕ) × (make_room fuel n test validation ≡ some (t, v)) × HasRoom n t v
unfolding make_room
make_room-HasRoom zero n test validation h t v enough = absurd (omega arith)
make_room-HasRoom (suc fuel) n test validation h t v enough =
    elim (Bool-cases (ltb (test + validation) n)) [
      | inl fits ↦ (test, validation, rw fits refl, (t, v, ltb→lt (test + validation) n fits))
      | inr full ↦ elim (Bool-cases (ltb 1 validation)) [
        | inl more ↦
            rw (full, more)
              (make_room-HasRoom fuel n test (validation - 1) h t (ground arith) (ground arith))
        | inr one_left ↦ elim (Bool-cases (ltb 1 test)) [
          | inl more ↦
              rw (full, one_left, more)
                (make_room-HasRoom fuel n (test - 1) validation h (ground arith) v (ground arith))
          | inr last ↦ absurd (ground arith)
        ]
      ]
    ]

or-true : (b : Bool) → (b || true) ≡ true
or-true true = refl
or-true false = refl

-- Each place of the list has its split among those assigned.
contains-assign_places :
    (test validation index k : ℕ) (runs : List String)
    → index ≤ k
    → k < index + length runs
    → contains
        (map (λ e. e.1) (assign_places test validation index runs))
        (place_split test validation k)
      ≡ true
unfolding assign_places contains
contains-assign_places test validation index k [] le lt = absurd (omega arith)
contains-assign_places test validation index k (x ∷ rest) le lt = elim (Bool-cases (ltb index k)) [
  | inl later ↦
      rw (contains-assign_places test validation (index + 1) k rest (ground arith) (ground arith))
        (or-true (place_split test validation k == place_split test validation index))
  | inr here ↦
      let same : index ≡ k = ground arith in rw (same, eq_refl (place_split test validation k))
]

abbrev pub Reaches : Assignments → String → Type 0
Reaches a split = contains (map (λ e. e.1) a) split ≡ true

places-Reach :
    (t v : ℕ) (runs : List String)
    → HasRoom (length runs) t v
    → Reaches (assign_places t v 0 runs) "test"
      × Reaches (assign_places t v 0 runs) "validation"
      × Reaches (assign_places t v 0 runs) "train"
places-Reach t v runs room =
    let first : place_split t v 0 ≡ "test" = ground arith in
    let second : place_split t v t ≡ "validation" = ground arith in
    let third : place_split t v (t + v) ≡ "train" = ground arith in
    (
      rw first at (contains-assign_places t v 0 0 runs (omega arith) (omega arith)),
      rw second at (contains-assign_places t v 0 t runs (omega arith) (omega arith)),
      rw third at (contains-assign_places t v 0 (t + v) runs (omega arith) (omega arith)),
    )

module _ (lib : Library) (seed test_fraction validation_fraction : ℕ) (stratum : String)
    (runs : List String)
    (same_length : (key : String) → length (lib.shuffle key runs) ≡ length runs) where
  -- A stratum of three runs or more is split without an exception, whatever the fractions are, and
  -- has runs in each of the three splits, if a shuffle keeps the number of runs.
  pub assign_stratum-Reaches :
      3 ≤ length runs
      → (a : Assignments) × (assign_stratum lib seed test_fraction validation_fraction stratum runs
          ≡ ok a)
        × Reaches a "test"
        × Reaches a "validation"
        × Reaches a "train"
  unfolding assign_stratum
  assign_stratum-Reaches enough =
      let key = append (lib.decimal seed) (append ":" stratum) in
      let shuffled = lib.shuffle key runs in
      let n = length shuffled in
      let three : 3 ≤ n = rw (same_length key) enough in
      let test = max 1 (lib.round_product n test_fraction) in
      let validation = max 1 (lib.round_product n validation_fraction) in
      let (t, v, e, room) =
        make_room-HasRoom (test + validation) n test validation three (omega arith) (omega arith)
          (omega arith) in
      let (a, b, c) = places-Reach t v shuffled room in
      (assign_places t v 0 shuffled, rw (le→ltb n 3 three, e) refl, a, b, c)
