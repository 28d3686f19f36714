-- ===== src/Adversarial/Averaging.antt =====
-- `simulate_parameter_averaging` of src/commguard/adversarial.py, over a type of floats with the sum of two
-- floats, the start of `sum` and the division by a length.
use comm_guard.Prelude.{
  ℕ, ◌+◌, Bool, not, ◌||◌, List, [], ◌∷◌, map, ℤ, pos, eq_z, ltz, ltb, eqb, length, some_of,
  if◌then◌else◌, value_error, Result, ok, ◌>>=◌, ◌>>◌, raise_if,
}

pub record Floats (F : Type 0) : Type 0 where
  pub zero_float : F
  pub add : F → F → F
  pub divide : F → ℕ → F

module _ {F : Type 0} (fl : Floats F) where
  -- `zip` of two lists of one length
  unfoldable pub updated : List F → List F → List F
  updated [] updates = []
  updated (state ∷ states) [] = []
  updated (state ∷ states) (update ∷ updates) = fl.add state update ∷ updated states updates

  -- `sum(states)`, from left to right
  unfoldable pub sum_from : F → List F → F
  sum_from total [] = total
  sum_from total (state ∷ states) = sum_from (fl.add total state) states

  -- `sum(states) / len(states)`
  unfoldable pub average : List F → F
  average states = fl.divide (sum_from fl.zero_float states) (length states)

  -- The states after the local updates of a step.
  unfoldable pub averaged : Bool → List F → List F
  averaged synchronized states =
      let mean = average states in if synchronized then map (λ _. mean) states else states

  -- The loop over the steps, the first of which has the number `step`.
  unfoldable pub simulate_from : List ℤ → ℕ → List F → List (List F) → Result (List (List F))
  simulate_from schedule step states [] = ok []
  simulate_from schedule step states (updates ∷ rest) = do
    raise_if (not (eqb (length updates) (length states)))
        (value_error "update count does not match rank count")
    let next = averaged (some_of (eq_z (pos step)) schedule) (updated states updates)
    history ← simulate_from schedule (step + 1) next rest
    ok (next ∷ history)

  -- `simulate_parameter_averaging`
  unfoldable pub simulate_parameter_averaging :
      List F → List (List F) → List ℤ → Result (List (List F))
  simulate_parameter_averaging initial_states local_updates schedule = do
    raise_if (ltb (length initial_states) 2) (value_error "simulation requires at least two ranks")
    history ← simulate_from schedule 1 initial_states local_updates
    raise_if (some_of (λ s. ltz s (pos 1) || ltz (pos (length local_updates)) s) schedule)
        (value_error "synchronization schedule references unknown steps")
    ok history
