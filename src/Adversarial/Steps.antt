-- ===== src/Adversarial/Steps.antt =====
-- What the schedules of `synchronization_steps` of src/commguard/adversarial.py are.
use comm_guard.Prelude.{
  ℕ, zero, suc, ◌+◌, ◌≤◌, ◌<◌, ◌≡◌, refl, ◌∙◌, ap, String, Bool, true, false, not, ◌&&◌, ◌||◌, List,
  [], ◌∷◌, ◌++◌, pos, arith, ◌↔◌, ◌⊎◌, inl, inr, Bool-cases, eqb, ltb, some_of, if◌then◌else◌, ok,
  >>=-eq-ok,
}
use comm_guard.Central.Json.{Fields}
use comm_guard.Central.Messages.{Python}
use comm_guard.Adversarial.{FloatOfText}
use comm_guard.Adversarial.Schedule.{Draw, should_synchronize, chosen_steps, synchronization_steps}

-- A strictly increasing list of numbers from `lo` to `hi`.
abbrev pub Ascending : ℕ → ℕ → List ℕ → Type 0
Ascending lo hi [] = Unit
Ascending lo hi (x ∷ xs) = (lo ≤ x) × (x ≤ hi) × Ascending (x + 1) hi xs

abbrev pub Has : List ℕ → ℕ → Type 0
Has steps step = some_of (eqb step) steps ≡ true

Ascending-le : (lo lo' hi : ℕ) (xs : List ℕ) → lo ≤ lo' → Ascending lo' hi xs → Ascending lo hi xs
Ascending-le lo lo' hi [] h a = tt
Ascending-le lo lo' hi (x ∷ xs) h a = (omega (arith, a.0), a.1, a.2)

Ascending-snoc :
    (lo hi last : ℕ) (xs : List ℕ)
    → Ascending lo hi xs
    → lo ≤ last
    → hi ≤ last
    → some_of (eqb last) xs ≡ false
    → Ascending lo last (xs ++ last ∷ [])
unfolding some_of
Ascending-snoc lo hi last [] a h k other = (h, omega arith, tt)
Ascending-snoc lo hi last (x ∷ xs) a h k other = (
  a.0,
  omega (arith, a.1),
  Ascending-snoc (x + 1) hi last xs a.2 (ground (arith, a.1)) k (ground arith),
)

Ascending-Has :
    (lo hi step : ℕ) (xs : List ℕ) → Ascending lo hi xs → step < lo → some_of (eqb step) xs ≡ false
unfolding some_of
Ascending-Has lo hi step [] a h = refl
Ascending-Has lo hi step (x ∷ xs) a h =
    ground (arith, a.0, Ascending-Has (x + 1) hi step xs a.2 (omega (arith, a.0)))

some_of-snoc :
    (step last : ℕ) (xs : List ℕ)
    → some_of (eqb step) (xs ++ last ∷ []) ≡ (some_of (eqb step) xs || eqb step last)
unfolding some_of
some_of-snoc step last [] = ground arith
some_of-snoc step last (x ∷ xs) = ground (arith, some_of-snoc step last xs)

extend-Ascending :
    (chosen : Bool) (first hi : ℕ) (rest : List ℕ)
    → first ≤ hi
    → Ascending (first + 1) hi rest
    → Ascending first hi (if chosen then first ∷ rest else rest)
extend-Ascending true first hi rest h a = (omega arith, h, a)
extend-Ascending false first hi rest h a = Ascending-le first (first + 1) hi rest (omega arith) a

extend-Has :
    (chosen : Bool) (first step : ℕ) (rest : List ℕ)
    → some_of (eqb step) (if chosen then first ∷ rest else rest)
      ≡ ((chosen && eqb step first) || some_of (eqb step) rest)
unfolding some_of
extend-Has true first step rest = refl
extend-Has false first step rest = refl

module _ (rt : Python) (read : FloatOfText) (draw : Draw) (id : String) (config : Fields) where
  -- The decision for a step.
  abbrev pub Synchronizes : ℕ → Type 0
  Synchronizes step = should_synchronize rt read draw id (pos step) config ≡ ok true

  chosen_steps-suc :
      (first count : ℕ) {steps : List ℕ}
      → chosen_steps rt read draw id config first (suc count) ≡ ok steps
      → (chosen : Bool) × (rest : List ℕ) × (should_synchronize rt read draw id (pos first) config
          ≡ ok chosen)
        × (chosen_steps rt read draw id config (first + 1) count ≡ ok rest)
        × (steps ≡ (if chosen then first ∷ rest else rest))
  unfolding chosen_steps
  chosen_steps-suc first count h =
      let (chosen, decision, h1) =
        >>=-eq-ok (should_synchronize rt read draw id (pos first) config) _ h in
      let (rest, tail, h2) =
        >>=-eq-ok (chosen_steps rt read draw id config (first + 1) count) _ h1 in
      (chosen, rest, decision, tail, cc h2)

  chosen_steps-Ascending :
      (first count hi : ℕ) {steps : List ℕ}
      → first + count ≤ hi + 1
      → chosen_steps rt read draw id config first count ≡ ok steps
      → Ascending first hi steps
  unfolding chosen_steps
  chosen_steps-Ascending first zero hi {steps = []} b h = tt
  chosen_steps-Ascending first zero hi {steps = s ∷ ss} b h = cc
  chosen_steps-Ascending first (suc count) hi b h =
      let (chosen, rest, _, tail, e) = chosen_steps-suc first count h in
      let ih = chosen_steps-Ascending (first + 1) count hi (omega arith) tail in
      rw e (extend-Ascending chosen first hi rest (omega arith) ih)

  chosen_steps-Has :
      (first count step : ℕ) {steps : List ℕ}
      → chosen_steps rt read draw id config first count ≡ ok steps
      → first ≤ step
      → step < first + count
      → Has steps step ↔ Synchronizes step
  chosen_steps-Has first zero step h low high = absurd (omega arith)
  chosen_steps-Has first (suc count) step h low high =
      let (chosen, rest, decision, tail, e) = chosen_steps-suc first count h in
      let has = extend-Has chosen first step rest in
      elim (Bool-cases (eqb step first)) [
        | inl here ↦
            let same : step ≡ first = ground arith in
            let later =
              chosen_steps-Ascending (first + 1) count (first + count) (omega arith) tail in
            let gone = Ascending-Has (first + 1) (first + count) step rest later (omega arith) in
            rw (e, has, here, gone, same)
              (
                (λ x. decision ∙ ap ok (ground arith)),
                (λ x. let y : chosen ≡ true = cc in rw y refl),
              )
        | inr there ↦
            let (to, from) =
              chosen_steps-Has (first + 1) count step tail (ground arith) (omega arith) in
            rw (e, has, there) ((λ x. to (ground arith)), (λ x. ground (arith, from x)))
      ]

  -- The steps at which the ranks synchronise: `n` steps are completed.
  pub record IsSchedule (n : ℕ) (include_final : Bool) (steps : List ℕ) : Type 0 where
    pub ascending : Ascending 1 n steps
    pub chosen :
        (step : ℕ)
        → 1 ≤ step
        → step ≤ n
        → Has steps step ↔ (Synchronizes step ⊎ ((include_final ≡ true) × (step ≡ n)))

  module _ (n : ℕ) (include_final : Bool) (steps : List ℕ) (inside : Ascending 1 n steps)
      (has : (step : ℕ) → 1 ≤ step → step ≤ n → Has steps step ↔ Synchronizes step) where
    with_last :
        (include_final && (ltb 0 n && not (some_of (eqb n) steps))) ≡ true
        → IsSchedule n include_final (steps ++ n ∷ [])
    with_last added = record {
      ascending = Ascending-snoc 1 n n steps inside (ground arith) (omega arith) (ground arith);
      chosen = λ step low high. rw (some_of-snoc step n steps) (
        (λ x. elim (Bool-cases (some_of (eqb step) steps)) [
          | inl before ↦ inl ((has step low high).0 before)
          | inr new ↦ inr (ground arith, ground arith)
        ]),
        (λ x. elim x [ inl s ↦ rw ((has step low high).1 s) refl | inr (_, e) ↦ ground arith ]),
      );
    }

    without_last :
        (include_final && (ltb 0 n && not (some_of (eqb n) steps))) ≡ false
        → IsSchedule n include_final steps
    without_last kept = record {
      ascending = inside;
      chosen = λ step low high. (
        (λ x. inl ((has step low high).0 x)),
        (λ x. elim x [ inl s ↦ (has step low high).1 s | inr (asked, e) ↦ rw e (ground arith) ]),
      );
    }

  final-IsSchedule :
      (n : ℕ) (include_final : Bool) {steps : List ℕ}
      → chosen_steps rt read draw id config 1 n ≡ ok steps
      → IsSchedule n include_final (
          if include_final && (ltb 0 n && not (some_of (eqb n) steps))
          then steps ++ n ∷ []
          else steps)
  final-IsSchedule n include_final {steps = steps} h =
      let inside = chosen_steps-Ascending 1 n n (omega arith) h in
      let has = λ (step : ℕ) (low : 1 ≤ step) (high : step ≤ n).
        chosen_steps-Has 1 n step h low (omega arith) in
      elim (Bool-cases (include_final && (ltb 0 n && not (some_of (eqb n) steps)))) [
        | inl added ↦ rw added (with_last n include_final steps inside has added)
        | inr kept ↦ rw kept (without_last n include_final steps inside has kept)
      ]

  -- A schedule that `synchronization_steps` returns is strictly increasing and lies between the first and
  -- the last completed step. A completed step is in it exactly when `should_synchronize` decides so, or when
  -- the final agreement is asked for and the step is the last one.
  pub synchronization_steps-IsSchedule :
      (n : ℕ) (include_final : Bool) {steps : List ℕ}
      → synchronization_steps rt read draw id (pos n) config include_final ≡ ok steps
      → IsSchedule n include_final steps
  unfolding synchronization_steps
  synchronization_steps-IsSchedule n include_final {steps = steps} h =
      let (before, all, e) = >>=-eq-ok (chosen_steps rt read draw id config 1 n) _ h in
      let same : (if include_final && (ltb 0 n && not (some_of (eqb n) before))
            then before ++ n ∷ []
            else before)
          ≡ steps =
        cc e in
      rw (← same) (final-IsSchedule n include_final all)
