-- ===== src/Duration/Tests.antt =====
-- Tests of the stop conditions.
use comm_guard.Prelude.{ℕ, ◌+◌, ◌≤◌, ◌<◌, ◌≡◌, refl, false, none, some, arith, pos, ok}
use comm_guard.Duration.{
  DurationPolicy, MeasurementInterval, Controller, measured, should_continue, complete_iteration,
  finish,
}
use comm_guard.Duration.Loop.{stopped, run_loop, Ends, finish_after_stop, run_loop-capped}

evaluation : Unit {0}
unfolding measured should_continue complete_iteration finish run_loop
evaluation = tt

abbrev timed : DurationPolicy
timed = record {
  warmup = pos 2;
  minimum_measured = some (pos 5);
  iteration_cap = some (pos 9);
  legacy_iterations = pos 1;
}

abbrev controller : Controller
controller = record {
  policy = timed;
  started = 10;
  measurement_start = 12;
  iterations_completed = 3;
}

abbrev counted : Controller
counted = record {
  policy = record timed { minimum_measured = none; legacy_iterations = pos 4 };
  started = 10;
  measurement_start = 12;
  iterations_completed = 0;
}

controller-stops : should_continue controller 20 ≡ ok false
unfolding evaluation
controller-stops = refl

finish_after_stop_example :
    (interval : MeasurementInterval) × (finish controller 21 ≡ ok interval)
    × (5 ≤ interval.measured)
    × (interval.measured + interval.measurement_start ≡ interval.measurement_end)
    × (0 < interval.iterations_completed)
finish_after_stop_example =
    finish_after_stop controller (pos 5) 20 21 refl (omega arith) controller-stops (omega arith)

-- A clock that never passes the warm-up.
abbrev stuck : ℕ → ℕ
stuck n = 10

run_loop-capped_example : Ends (run_loop 7 stuck controller)
run_loop-capped_example =
    run_loop-capped 7 stuck controller (pos 5) (pos 9) refl refl (omega arith) (omega arith)

counted-stops : run_loop 5 stuck counted ≡ stopped (record counted { iterations_completed = 4 })
unfolding evaluation
counted-stops = refl
