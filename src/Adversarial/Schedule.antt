-- ===== src/Adversarial/Schedule.antt =====
-- `should_synchronize` and `synchronization_steps` of src/commguard/adversarial.py.
use comm_guard.Prelude.{
  ℕ, zero, suc, ◌+◌, ◌*◌, ◌/◌, String, Bool, not, ◌&&◌, List, [], ◌∷◌, ◌++◌, ◌==◌, ℤ, pos,
  is_negative, to_nat, ltz, abs, eqb, ltb, some_of, if◌then◌else◌, value_error, zero_division_error,
  Result, ok, err, ◌>>=◌, ◌>>◌, raise_if,
}
use comm_guard.Central.Json.{int, Fields, get_default}
use comm_guard.Central.Messages.{Python}
use comm_guard.Central.Samples.{to_int}
use comm_guard.Adversarial.{FloatOfText, Scaled, at_key, to_float}

-- `random.Random(f"commguard:{seed}:{step}").random()`
abbrev pub Draw : Type 0
Draw = (seed step : ℤ) → Scaled

module _ (rt : Python) (read : FloatOfText) (draw : Draw) where
  -- `step % int(config[name]) == 0`
  unfoldable pub is_multiple : Fields → String → ℤ → Result Bool
  is_multiple config name step = do
    setting ← at_key config name
    every_k ← to_int rt setting
    raise_if (eqb (abs every_k) 0) (zero_division_error "integer modulo by zero")
    ok (eqb (abs step / abs every_k * abs every_k) (abs step))

  -- The decision of the random schedule. The bounds of a strategy allow only numbers as its probability; a text
  -- that is no finite number raises here.
  unfoldable pub is_drawn : Fields → ℤ → Result Bool
  is_drawn config step = do
    setting ← at_key config "sync_probability"
    probability ← to_float read setting
    seed ← to_int rt (get_default config "seed" (int (pos 1337)))
    ok (ltz (draw seed step) probability)

  -- `should_synchronize`
  unfoldable pub should_synchronize : String → ℤ → Fields → Result Bool
  should_synchronize strategy_id step config = do
    raise_if (ltz step (pos 1)) (value_error "synchronization step must be at least one")
    (if strategy_id == "periodic_local_sgd"
        then is_multiple config "local_steps" step
        else if strategy_id == "diloco_inspired"
        then is_multiple config "inner_steps" step
        else if strategy_id == "randomized_synchronization"
        then is_drawn config step
        else err (value_error "strategy does not use sparse synchronization"))

  -- The list comprehension over `range(first, first + count)`.
  unfoldable pub chosen_steps : String → Fields → ℕ → ℕ → Result (List ℕ)
  chosen_steps strategy_id config first zero = ok []
  chosen_steps strategy_id config first (suc count) = do
    chosen ← should_synchronize strategy_id (pos first) config
    rest ← chosen_steps strategy_id config (first + 1) count
    ok (if chosen then first ∷ rest else rest)

  -- `synchronization_steps`
  unfoldable pub synchronization_steps : String → ℤ → Fields → Bool → Result (List ℕ)
  synchronization_steps strategy_id completed_steps config include_final_agreement = do
    raise_if (is_negative completed_steps) (value_error "completed_steps cannot be negative")
    steps ← chosen_steps strategy_id config 1 (to_nat completed_steps)
    let last = to_nat completed_steps
    ok (
        if include_final_agreement && (ltb 0 last && not (some_of (eqb last) steps))
        then steps ++ last ∷ []
        else steps)
