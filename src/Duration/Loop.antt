-- ===== src/Duration/Loop.antt =====
-- The loop `while controller.should_continue(): …; controller.complete_iteration()` that the
-- workloads of src/commguard/distributed/worker.py run.
use comm_guard.Prelude.{
  ℕ, zero, suc, ◌+◌, ◌≤◌, ◌<◌, ◌≡◌, refl, Bool, true, false, none, some, arith, ℤ, to_nat, Result,
  ok, err, Exception, ◌⊎◌, inl, inr,
}
use comm_guard.Duration.{
  Controller, MeasurementInterval, measured, should_continue, complete_iteration, finish,
}

-- How a run of the loop ends: by its test, by an exception of the test, or not within the fuel.
pub data Ending : Type 0 where
  stopped : Controller → Ending
  raised : Exception → Ending
  running : Controller → Ending

-- `clock i` is the reading in the i-th test. The body of the loop changes no field of the controller.
unfoldable pub run_loop : ℕ → (ℕ → ℕ) → Controller → Ending
run_loop zero clock c = running c
run_loop (suc fuel) clock c = elim (should_continue c (clock c.iterations_completed)) [
  | ok true ↦ run_loop fuel clock (complete_iteration c)
  | ok false ↦ stopped c
  | err e ↦ raised e
]

-- The loop has not run out of fuel.
abbrev pub Ends : Ending → Type 0
Ends ending = ((c : Controller) × (ending ≡ stopped c)) ⊎ ((e : Exception) × (ending ≡ raised e))

-- A stop of the loop under a minimum duration means that the minimum was measured, and that at least
-- one iteration was made.
pub should_continue-false :
    (c : Controller) (minimum : ℤ) (now : ℕ)
    → c.policy.minimum_measured ≡ some minimum
    → should_continue c now ≡ ok false
    → (to_nat minimum ≤ measured c now) × (0 < c.iterations_completed)
unfolding should_continue
should_continue-false c minimum now e h = (ground arith, ground arith)

-- After a stop under a minimum duration, `finish` at any later reading raises nothing, and reports
-- at least the minimum and at least one iteration.
pub finish_after_stop :
    (c : Controller) (minimum : ℤ) (now later : ℕ)
    → c.policy.minimum_measured ≡ some minimum
    → 0 < to_nat minimum
    → should_continue c now ≡ ok false
    → now ≤ later
    → (interval : MeasurementInterval) × (finish c later ≡ ok interval)
      × (to_nat minimum ≤ interval.measured)
      × (interval.measured + interval.measurement_start ≡ interval.measurement_end)
      × (0 < interval.iterations_completed)
unfolding finish
finish_after_stop c minimum now later e positive h le =
    let (enough, some_done) = should_continue-false c minimum now e h in
    (
      record {
        measurement_start = c.measurement_start;
        measurement_end = later;
        measured = measured c later;
        configured_warmup = c.policy.warmup;
        required_measured = c.policy.minimum_measured;
        iteration_cap = c.policy.iteration_cap;
        iterations_completed = c.iterations_completed;
        stop_reason = "minimum_measured_duration_reached";
      },
      ground arith,
      ground arith,
      ground arith,
      some_done,
    )

-- With an iteration cap the loop ends within `cap + 1` tests, whatever the clock reads: it stops, or
-- raises `DurationRequirementError`.
pub run_loop-capped :
    (fuel : ℕ) (clock : ℕ → ℕ) (c : Controller) (minimum cap : ℤ)
    → c.policy.minimum_measured ≡ some minimum
    → c.policy.iteration_cap ≡ some cap
    → c.iterations_completed ≤ to_nat cap
    → to_nat cap < fuel + c.iterations_completed
    → Ends (run_loop fuel clock c)
unfolding run_loop should_continue complete_iteration
run_loop-capped zero clock c minimum cap has_min has_cap le enough = absurd (omega arith)
run_loop-capped (suc fuel) clock c minimum cap has_min has_cap le enough =
    one_round (should_continue c (clock c.iterations_completed)) refl λ h.
      run_loop-capped fuel clock (complete_iteration c) minimum cap has_min has_cap (ground arith)
        (ground arith)
  where
    one_round :
        (r : Result Bool)
        → should_continue c (clock c.iterations_completed) ≡ r
        → (r ≡ ok true → Ends (run_loop fuel clock (complete_iteration c)))
        → Ends (elim r [
          | ok true ↦ run_loop fuel clock (complete_iteration c)
          | ok false ↦ stopped c
          | err e ↦ raised e
        ])
    one_round (ok true) h rest = rest refl
    one_round (ok false) h rest = inl (c, refl)
    one_round (err e) h rest = inr (e, refl)

-- Without a minimum duration the loop makes exactly `legacy_iterations` iterations and stops.
pub run_loop-legacy :
    (fuel : ℕ) (clock : ℕ → ℕ) (c : Controller)
    → c.policy.minimum_measured ≡ none
    → c.iterations_completed ≤ to_nat c.policy.legacy_iterations
    → to_nat c.policy.legacy_iterations < fuel + c.iterations_completed
    → run_loop fuel clock c
      ≡ stopped (record c { iterations_completed = to_nat c.policy.legacy_iterations })
unfolding run_loop should_continue complete_iteration
run_loop-legacy zero clock c none_min le enough = absurd (omega arith)
run_loop-legacy (suc fuel) clock c none_min le enough =
    ground (arith, run_loop-legacy fuel clock (complete_iteration c))
