-- ===== src/Adversarial/Periodic.antt =====
-- The schedules of periodic local training that src/commguard/adversarial.py accepts.
use native.Mathlib.Nat.{mul-div_cancel}
use comm_guard.Prelude.{
  ℕ, zero, suc, ◌+◌, ◌*◌, ◌/◌, ◌≤◌, ◌≡◌, refl, ap, String, Bool, true, false, not, List, [], ◌∷◌,
  ◌==◌, pos, negsuc, arith, ◌↔◌, ◌⊎◌, inl, inr, eq→str_eq, le→ltb, All, contains, eqb, ltb, ◌&&◌,
  ◌++◌, some_of, if◌then◌else◌, ok,
}
use comm_guard.Central.Json.{
  Value, obj, arr, text, int, float, bool, null, Fields, get, field_names,
}
use comm_guard.Central.Messages.{Python}
use comm_guard.Central.Samples.{to_int, float_unit}
use comm_guard.Schemas.Values.{scaled}
use comm_guard.Adversarial.{AdversarialStrategy, ParameterBound, FloatOfText, whole}
use comm_guard.Adversarial.Table.{strategies, strategy_for_config}
use comm_guard.Adversarial.Bounded.{IsWithin}
use comm_guard.Adversarial.Admitted.{strategy_for_config-IsAdmitted, lookup-All}
use comm_guard.Adversarial.Schedule.{
  Draw, is_multiple, should_synchronize, chosen_steps, synchronization_steps,
}
use comm_guard.Adversarial.Steps.{Ascending, Has, synchronization_steps-IsSchedule}

-- A parameter within whole bounds is read as a whole number between them.
to_int-whole :
    (rt : Python) (lo hi : ℕ) (v : Value)
    → IsWithin (whole lo hi) v
    → (k : ℕ) × (lo ≤ k) × (k ≤ hi) × (to_int rt v ≡ ok (pos k))
unfolding scaled to_int
to_int-whole rt lo hi (int (pos k)) (n, e, low, high, _) =
    let same : k * float_unit ≡ n = ground arith in (k, omega arith, omega arith, refl)
to_int-whole rt lo hi (int (negsuc k)) (n, e, low, high, _) = cc
to_int-whole rt lo hi (float x) (n, e, low, high, exact) =
    let same : x ≡ pos n = cc in
    (n / float_unit, omega (arith, low, exact refl), omega (arith, high, exact refl), rw same refl)
to_int-whole rt lo hi (bool true) (n, e, low, high, _) =
    let same : 1 * float_unit ≡ n = ground arith in (1, omega arith, omega arith, refl)
to_int-whole rt lo hi (bool false) (n, e, low, high, _) =
    let same : 0 ≡ n = ground arith in (0, omega arith, omega arith, refl)
to_int-whole rt lo hi (obj _) w = cc w.1
to_int-whole rt lo hi (arr _) w = cc w.1
to_int-whole rt lo hi (text _) w = cc w.1
to_int-whole rt lo hi null w = cc w.1

-- The first bound of periodic local training.
abbrev IsPeriodic : AdversarialStrategy → Type 0
IsPeriodic s =
    (s.strategy_id == "periodic_local_sgd") ≡ true
    → (rest : List (String × ParameterBound)) × (s.parameter_bounds
        ≡ ("local_steps", whole 1 100) ∷ rest)

strategies-IsPeriodic : All (λ e. IsPeriodic e.1) strategies
unfolding strategies
strategies-IsPeriodic = (
  λ h. cc,
  ((λ h. (_, refl)), (λ h. cc, (λ h. cc, (λ h. cc, (λ h. cc, (λ h. cc, (λ h. cc, tt))))))),
)

-- A multiple of `k`.
abbrev pub IsMultiple : ℕ → ℕ → Type 0
IsMultiple k step = (q : ℕ) × (step ≡ q * k)

-- The steps of periodic local training with `k` local steps, of which `n` are completed.
pub record IsPeriodicSchedule (k n : ℕ) (include_final : Bool) (steps : List ℕ) : Type 0 where
  pub ascending : Ascending 1 n steps
  pub chosen :
      (step : ℕ)
      → 1 ≤ step
      → step ≤ n
      → Has steps step ↔ (IsMultiple k step ⊎ ((include_final ≡ true) × (step ≡ n)))

module _ (rt : Python) (read : FloatOfText) (draw : Draw) (config : Fields) (k : ℕ)
    (there : contains (field_names config) "local_steps" ≡ true)
    (setting : to_int rt (get config "local_steps") ≡ ok (pos k)) (above : 1 ≤ k) where
  should_synchronize-periodic :
      (step : ℕ)
      → 1 ≤ step
      → should_synchronize rt read draw "periodic_local_sgd" (pos step) config
        ≡ ok (eqb (step / k * k) step)
  unfolding should_synchronize is_multiple
  should_synchronize-periodic step low =
      let test : eqb k 0 ≡ false = ground arith in
      rw (le→ltb step 1 low, is_multiple, there, setting, test) refl

  chosen_steps-total :
      (first count : ℕ)
      → 1 ≤ first
      → (steps : List ℕ) × (chosen_steps rt read draw "periodic_local_sgd" config first count
          ≡ ok steps)
  unfolding chosen_steps
  chosen_steps-total first zero low = ([], refl)
  chosen_steps-total first (suc count) low =
      let (rest, e) = chosen_steps-total (first + 1) count (omega arith) in
      let chosen = eqb (first / k * k) first in
      (if chosen then first ∷ rest else rest, rw (should_synchronize-periodic first low, e) refl)

  IsMultiple-iff : (step : ℕ) → (eqb (step / k * k) step ≡ true) ↔ IsMultiple k step
  IsMultiple-iff step = (
    (λ h. (step / k, ground arith)),
    (λ h. let e : step / k ≡ h.0 = rw h.1 (mul-div_cancel h.0 above) in rw e (ground (arith, h.1))),
  )

  periodic-total :
      (n : ℕ) (include_final : Bool)
      → (steps : List ℕ) × (synchronization_steps rt read draw "periodic_local_sgd"
            (pos n)
            config
            include_final
          ≡ ok steps)
  unfolding synchronization_steps
  periodic-total n include_final =
      let (steps, e) = chosen_steps-total 1 n (omega arith) in
      (
        if include_final && (ltb 0 n && not (some_of (eqb n) steps))
            then steps ++ n ∷ []
            else steps,
        rw e refl,
      )

  periodic-chosen :
      (step : ℕ)
      → 1 ≤ step
      → (should_synchronize rt read draw "periodic_local_sgd" (pos step) config ≡ ok true)
        ↔ IsMultiple k step
  periodic-chosen step low =
      let (to, from) = IsMultiple-iff step in
      rw (should_synchronize-periodic step low) ((λ h. to (cc h)), (λ h. ap ok (from h)))

  periodic-IsPeriodicSchedule :
      (n : ℕ) (include_final : Bool) {steps : List ℕ}
      → synchronization_steps rt read draw "periodic_local_sgd" (pos n) config include_final
        ≡ ok steps
      → IsPeriodicSchedule k n include_final steps
  periodic-IsPeriodicSchedule n include_final h =
      let schedule =
        synchronization_steps-IsSchedule rt read draw "periodic_local_sgd" config n include_final
          h in
      record {
        ascending = schedule.ascending;
        chosen = λ step low high.
            let (to, from) = schedule.chosen step low high in
            let (multiple, sync) = periodic-chosen step low in
            (
              (λ x. elim (to x) [ inl s ↦ inl (multiple s) | inr l ↦ inr l ]),
              (λ x. from (elim x [ inl m ↦ inl (sync m) | inr l ↦ inr l ])),
            );
      }

-- For a configuration that `strategy_for_config` accepts as periodic local training there is a number of
-- local steps `k`, from 1 to 100, that the configuration declares, and for each number of completed steps
-- `synchronization_steps` returns, in increasing order, just the completed steps that are multiples of `k`
-- and, if the final agreement is asked for, the last one.
pub synchronization_steps-periodic :
    (rt : Python) (read : FloatOfText) (draw : Draw) (config : Fields) {s : AdversarialStrategy}
    → strategy_for_config rt read config ≡ ok s
    → s.strategy_id ≡ "periodic_local_sgd"
    → (k : ℕ) × (1 ≤ k)
      × (k ≤ 100)
      × (to_int rt (get config "local_steps") ≡ ok (pos k))
      × ((n : ℕ) (include_final : Bool)
          → (steps : List ℕ) × (synchronization_steps rt read draw s.strategy_id
                (pos n)
                config
                include_final
              ≡ ok steps)
            × IsPeriodicSchedule k n include_final steps)
synchronization_steps-periodic rt read draw config {s = s} accepted named =
    let admitted = strategy_for_config-IsAdmitted rt read config accepted in
    let (rest, bounds) =
      lookup-All IsPeriodic _ strategies strategies-IsPeriodic admitted.listed
        (eq→str_eq _ _ named) in
    let (there, within) = (rw bounds at admitted.parameters).0 in
    let (k, low, high, setting) = to_int-whole rt 1 100 (get config "local_steps") within in
    (
      k,
      low,
      high,
      setting,
      λ n include_final.
          let (steps, e) = periodic-total rt read draw config k there setting low n include_final in
          (
            steps,
            rw named e,
            periodic-IsPeriodicSchedule rt read draw config k there setting low n include_final e,
          ),
    )
