-- ===== src/Adversarial/Agreement.antt =====
-- The ranks of `simulate_parameter_averaging` of src/commguard/adversarial.py agree at the steps of the
-- schedule, in particular after the final one.
use comm_guard.Prelude.{
  ℕ, suc, ◌+◌, ◌≤◌, ◌≡◌, refl, ◌∙◌, String, Bool, true, false, ◌||◌, List, [], ◌∷◌, map, ℤ, pos,
  eq_z, ltz, eqb, length, some_of, All, arith, ap, inr, le→ltb, ok,
}
use comm_guard.Central.Json.{Fields}
use comm_guard.Central.Messages.{Python}
use comm_guard.Adversarial.{FloatOfText}
use comm_guard.Adversarial.Schedule.{Draw, synchronization_steps}
use comm_guard.Adversarial.Steps.{Ascending, synchronization_steps-IsSchedule}
use comm_guard.Adversarial.Averaging.{
  Floats, updated, average, averaged, simulate_from, simulate_parameter_averaging,
}

module _ {F : Type 0} where
  -- All ranks have one state.
  abbrev pub Agrees : List F → Type 0
  Agrees states = (mean : F) × All (λ state. state ≡ mean) states

  -- Each row of a history has a state for each rank, and the ranks agree in the row of a step of the schedule.
  abbrev pub IsHistory : ℕ → List ℤ → ℕ → List (List F) → Type 0
  IsHistory ranks schedule step [] = Unit
  IsHistory ranks schedule step (row ∷ rows) =
      (length row ≡ ranks)
      × (some_of (eq_z (pos step)) schedule ≡ true → Agrees row)
      × IsHistory ranks schedule (step + 1) rows

  -- The ranks agree in the last row.
  abbrev pub EndsAgreed : List (List F) → Type 0
  EndsAgreed [] = Unit
  EndsAgreed (row ∷ []) = Agrees row
  EndsAgreed (row ∷ next ∷ rows) = EndsAgreed (next ∷ rows)

  map-Agrees : (mean : F) (states : List F) → All (λ state. state ≡ mean) (map (λ _. mean) states)
  map-Agrees mean [] = tt
  map-Agrees mean (s ∷ states) = (refl, map-Agrees mean states)

  length-mean : (mean : F) (states : List F) → length (map (λ _. mean) states) ≡ length states
  length-mean mean [] = refl
  length-mean mean (s ∷ states) = ap suc (length-mean mean states)

  IsHistory-EndsAgreed :
      (ranks : ℕ) (schedule : List ℤ) (step last : ℕ) (rows : List (List F))
      → IsHistory ranks schedule step rows
      → step + length rows ≡ last + 1
      → 1 ≤ step
      → (1 ≤ last → some_of (eq_z (pos last)) schedule ≡ true)
      → EndsAgreed rows
  IsHistory-EndsAgreed ranks schedule step last [] h e low s = tt
  IsHistory-EndsAgreed ranks schedule step last (row ∷ []) h e low s =
      let same : step ≡ last = omega arith in h.1 (rw same (s (omega arith)))
  IsHistory-EndsAgreed ranks schedule step last (row ∷ next ∷ rows) h e low s =
      IsHistory-EndsAgreed ranks schedule (step + 1) last (next ∷ rows) h.2 (omega arith)
        (omega arith) s

  module _ (fl : Floats F) where
    length-updated :
        (states updates : List F)
        → length updates ≡ length states
        → length (updated fl states updates) ≡ length states
    unfolding updated
    length-updated [] updates e = refl
    length-updated (s ∷ states) [] e = absurd (omega arith)
    length-updated (s ∷ states) (u ∷ updates) e =
        ap suc (length-updated states updates (omega arith))

    length-averaged : (b : Bool) (states : List F) → length (averaged fl b states) ≡ length states
    unfolding averaged
    length-averaged true states = length-mean _ states
    length-averaged false states = refl

    averaged-Agrees : (b : Bool) (states : List F) → b ≡ true → Agrees (averaged fl b states)
    unfolding averaged
    averaged-Agrees true states e = (average fl states, map-Agrees _ states)
    averaged-Agrees false states e = cc

    simulate_from-IsHistory :
        (schedule : List ℤ) (step : ℕ) (states : List F) (local_updates : List (List F))
        → All (λ updates. length updates ≡ length states) local_updates
        → (history : List (List F)) × (simulate_from fl schedule step states local_updates
            ≡ ok history)
          × (length history ≡ length local_updates)
          × IsHistory (length states) schedule step history
    unfolding simulate_from
    simulate_from-IsHistory schedule step states [] counts = ([], refl, refl, tt)
    simulate_from-IsHistory schedule step states (updates ∷ rest) counts =
        let now = some_of (eq_z (pos step)) schedule in
        let next = averaged fl now (updated fl states updates) in
        let kept : length next ≡ length states =
          length-averaged now _ ∙ length-updated states updates counts.0 in
        let (history, e, count, h) =
          simulate_from-IsHistory schedule (step + 1) next rest (rw kept counts.1) in
        let test : eqb (length updates) (length states) ≡ true = ground (arith, counts.0) in
        (
          next ∷ history,
          rw (test, e) refl,
          omega (arith, count),
          (kept, averaged-Agrees now _, rw kept at h),
        )

    -- With two ranks or more, a row of updates for each rank and a schedule of executed steps, the
    -- simulation returns a row for each step, with a state for each rank, and all ranks have one state after
    -- each step of the schedule.
    pub simulate_parameter_averaging-IsHistory :
        (initial_states : List F) (local_updates : List (List F)) (schedule : List ℤ)
        → 2 ≤ length initial_states
        → All (λ updates. length updates ≡ length initial_states) local_updates
        → some_of (λ s. ltz s (pos 1) || ltz (pos (length local_updates)) s) schedule ≡ false
        → (history : List (List F)) × (simulate_parameter_averaging fl initial_states local_updates
              schedule
            ≡ ok history)
          × (length history ≡ length local_updates)
          × IsHistory (length initial_states) schedule 1 history
    unfolding simulate_parameter_averaging
    simulate_parameter_averaging-IsHistory initial_states local_updates schedule ranks counts
          executed =
        let (history, e, count, h) =
          simulate_from-IsHistory schedule 1 initial_states local_updates counts in
        (history, rw (le→ltb _ _ ranks, e, executed) refl, count, h)

Ascending-executed :
    (lo n : ℕ) (steps : List ℕ)
    → 1 ≤ lo
    → Ascending lo n steps
    → some_of (λ s. ltz s (pos 1) || ltz (pos n) s) (map pos steps) ≡ false
unfolding some_of
Ascending-executed lo n [] low a = refl
Ascending-executed lo n (x ∷ xs) low a =
    ground (arith, a.0, a.1, Ascending-executed (x + 1) n xs (omega arith) a.2)

some_of-pos :
    (n : ℕ) (steps : List ℕ) → some_of (eq_z (pos n)) (map pos steps) ≡ some_of (eqb n) steps
unfolding some_of
some_of-pos n [] = refl
some_of-pos n (x ∷ xs) = rw (some_of-pos n xs) refl

-- For the schedule of `synchronization_steps` with the final agreement, over as many steps as there are rows
-- of updates, two ranks or more and a row of updates for each rank, the simulation returns: all ranks have
-- one state after each step of the schedule, and in particular after the last step.
pub simulate_parameter_averaging-agrees :
    {F : Type 0} (fl : Floats F) (rt : Python) (read : FloatOfText) (draw : Draw) (id : String)
    (config : Fields) (initial_states : List F) (local_updates : List (List F)) {steps : List ℕ}
    → synchronization_steps rt read draw id (pos (length local_updates)) config true ≡ ok steps
    → 2 ≤ length initial_states
    → All (λ updates. length updates ≡ length initial_states) local_updates
    → (history : List (List F)) × (simulate_parameter_averaging fl initial_states local_updates
          (map pos steps)
        ≡ ok history)
      × (length history ≡ length local_updates)
      × IsHistory (length initial_states) (map pos steps) 1 history
      × EndsAgreed history
simulate_parameter_averaging-agrees fl rt read draw id config initial local_updates {steps = steps}
      scheduled ranks counts =
    let n = length local_updates in
    let schedule = synchronization_steps-IsSchedule rt read draw id config n true scheduled in
    let executed = Ascending-executed 1 n steps (omega arith) schedule.ascending in
    let (history, e, count, h) =
      simulate_parameter_averaging-IsHistory fl initial local_updates (map pos steps) ranks counts
        executed in
    (
      history,
      e,
      count,
      h,
      IsHistory-EndsAgreed (length initial) (map pos steps) 1 n history h (omega (arith, count))
          (omega arith)
          (λ low. some_of-pos n steps ∙ (schedule.chosen n low (omega arith)).1 (inr (refl, refl))),
    )
