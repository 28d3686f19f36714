-- ===== src/Duration.antt =====
-- src/commguard/duration.py: the stop conditions of bounded workloads.
-- Times are whole nanoseconds of the monotonic clock. A reading before the end of the warm-up counts
-- as no measured time, which is the subtraction of ℕ.
pub mod Loop
pub mod Tests
use comm_guard.Prelude.{
  ℕ, ◌+◌, ◌-◌, String, Bool, true, false, not, ◌&&◌, ◌||◌, Option, none, some, ℤ, pos, is_negative,
  is_zero, to_nat, ltb, leb, get_or, if◌then◌else◌, Exception, value_error,
  duration_requirement_error, Result, ok, err, ◌>>=◌, ◌>>◌, raise_if,
}

pub record DurationPolicy : Type 0 where
  pub warmup : ℤ
  pub minimum_measured : Option ℤ
  pub iteration_cap : Option ℤ
  pub legacy_iterations : ℤ

-- What the configuration has under a key. Seconds are given in whole nanoseconds, so that `float` and `int`
-- of a number are the number itself.
pub data Entry : Type 0 where
  missing : Entry
  null : Entry
  number : ℤ → Entry

pub record Config : Type 0 where
  pub warmup_seconds : Entry
  pub min_measured_seconds : Entry
  pub iteration_cap : Entry
  pub iterations : Entry

-- `float(config.get(key, default))`, and the same with `int`; `message` is that of its `TypeError`.
abbrev converted : String → ℤ → Entry → Result ℤ
converted message default missing = ok default
converted message default null = err (Exception.type_error message)
converted message default (number n) = ok n

-- `config.get(key)`, where it is not `None`
abbrev optional : Entry → Option ℤ
optional missing = none
optional null = none
optional (number n) = some n

-- `value <= 0`
abbrev not_positive : ℤ → Bool
not_positive n = is_negative n || is_zero n

-- `value is not None and value <= 0`
abbrev bad_option : Option ℤ → Bool
bad_option none = false
bad_option (some n) = not_positive n

-- `DurationPolicy.validate`
unfoldable pub validate_policy : DurationPolicy → Result (Unit {0})
validate_policy p = do
  raise_if (is_negative p.warmup) (value_error "warmup_seconds cannot be negative")
  raise_if (bad_option p.minimum_measured) (value_error "min_measured_seconds must be positive")
  raise_if (bad_option p.iteration_cap) (value_error "iteration_cap must be positive when provided")
  raise_if (not_positive p.legacy_iterations) (value_error "iterations must be positive")

-- `DurationPolicy.from_config`
unfoldable pub policy_from_config : Config → Result DurationPolicy
unfolding validate_policy
policy_from_config c = do
  warmup ←
      converted "float() argument must be a string or a real number, not 'NoneType'" (pos 0)
        c.warmup_seconds
  legacy_iterations ←
      converted
        "int() argument must be a string, a bytes-like object or a real number, not 'NoneType'"
        (pos 1) c.iterations
  let policy : DurationPolicy = record {
    warmup = warmup;
    minimum_measured = optional c.min_measured_seconds;
    iteration_cap = optional c.iteration_cap;
    legacy_iterations = legacy_iterations;
  }
  validate_policy policy
  ok policy

pub record MeasurementInterval : Type 0 where
  pub measurement_start : ℕ
  pub measurement_end : ℕ
  pub measured : ℕ
  pub configured_warmup : ℤ
  pub required_measured : Option ℤ
  pub iteration_cap : Option ℤ
  pub iterations_completed : ℕ
  pub stop_reason : String

pub record Controller : Type 0 where
  pub policy : DurationPolicy
  pub started : ℕ
  pub measurement_start : ℕ
  pub iterations_completed : ℕ

-- `DurationController.__init__`, at the clock reading `now`.
unfoldable pub make_controller : DurationPolicy → ℕ → Result Controller
unfolding validate_policy
make_controller p now = do
  validate_policy p
  ok (record {
    policy = p;
    started = now;
    measurement_start = now + to_nat p.warmup;
    iterations_completed = 0;
  })

-- `measured_seconds`
unfoldable pub measured : Controller → ℕ → ℕ
measured c now = now - c.measurement_start

-- `cap is not None and iterations >= cap`
abbrev cap_reached : Option ℤ → ℕ → Bool
cap_reached none n = false
cap_reached (some cap) n = leb (to_nat cap) n

abbrev continue_measured : Controller → ℕ → ℕ → Result Bool
continue_measured c minimum now =
    if leb minimum (measured c now) && ltb 0 c.iterations_completed
    then ok false
    else if cap_reached c.policy.iteration_cap c.iterations_completed
    then err (duration_requirement_error "measurement duration unmet")
    else ok true

abbrev continue_if : Controller → Option ℤ → ℕ → Result Bool
continue_if c none now = ok (ltb c.iterations_completed (to_nat c.policy.legacy_iterations))
continue_if c (some minimum) now = continue_measured c (to_nat minimum) now

-- `should_continue`, at the clock reading `now`.
unfoldable pub should_continue : Controller → ℕ → Result Bool
unfolding measured
should_continue c now = continue_if c c.policy.minimum_measured now

-- `complete_iteration`
unfoldable pub complete_iteration : Controller → Controller
complete_iteration c = record c { iterations_completed = c.iterations_completed + 1 }

abbrev unmet : Option ℤ → ℕ → Bool
unmet none m = false
unmet (some minimum) m = ltb m (to_nat minimum)

abbrev stop_reason_of : Option ℤ → String
stop_reason_of none = "legacy_iteration_count_reached"
stop_reason_of (some minimum) = "minimum_measured_duration_reached"

-- `finish`, at the clock reading `now`.
unfoldable pub finish : Controller → ℕ → Result MeasurementInterval
unfolding measured
finish c now = do
  raise_if (unmet c.policy.minimum_measured (measured c now))
      (duration_requirement_error "measurement duration unmet at finish")
  ok (record {
    measurement_start = c.measurement_start;
    measurement_end = now;
    measured = measured c now;
    configured_warmup = c.policy.warmup;
    required_measured = c.policy.minimum_measured;
    iteration_cap = c.policy.iteration_cap;
    iterations_completed = c.iterations_completed;
    stop_reason = stop_reason_of c.policy.minimum_measured;
  })
