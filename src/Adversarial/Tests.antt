-- ===== src/Adversarial/Tests.antt =====
-- A configuration of periodic local training, its schedule and its averaging, and a holdout plan.
use comm_guard.Prelude.{
  ℕ, ◌+◌, ◌/◌, ◌≤◌, ◌≡◌, refl, arith, Bool, List, true, false, none, [], ◌∷◌, String, map, pos,
  length, lookup, contains, some_of, every, subset, same_set, ok,
}
use comm_guard.Central.Json.{bool, int, text, Fields, end, field, get, field_names}
use comm_guard.Central.Examples.{toy}
use comm_guard.Central.Samples.{to_int, float_unit, float_limit}
use comm_guard.Schemas.Values.{scaled, member}
use comm_guard.Adversarial.{
  FloatOfText, common_bounds, validate_bound, validate_parameters, validate_shared,
  validate_declaration, validate_measured, validate_config,
}
use comm_guard.Adversarial.Table.{strategies, strategy_for_config, periodic_local_sgd}
use comm_guard.Adversarial.Admitted.{IsAdmitted, strategy_for_config-IsAdmitted}
use comm_guard.Adversarial.Schedule.{
  Draw, should_synchronize, is_multiple, chosen_steps, synchronization_steps,
}
use comm_guard.Adversarial.Averaging.{Floats, simulate_parameter_averaging}
use comm_guard.Adversarial.Agreement.{IsHistory, EndsAgreed, simulate_parameter_averaging-agrees}
use comm_guard.Adversarial.Periodic.{IsPeriodicSchedule, synchronization_steps-periodic}
use comm_guard.Adversarial.Holdout.{
  AdversarialHoldoutPlan, known_families, validate_plan, is_final_identity, round_for,
}
use comm_guard.Adversarial.Rounds.{IsRound, round_for-IsRound}

abbrev no_text : FloatOfText
no_text s = none

abbrev no_draw : Draw
no_draw seed step = pos 0

abbrev config : Fields
config = field "strategy_id" (text "periodic_local_sgd") (
    field "family" (text "periodic_local_sgd") (
      field "label" (text "training") (
        field "mode" (text "sparse_sync_training") (
          field "designation" (text "adversarial") (
            field "enabled_by_default" (bool false) (
              field "requires_human_approval" (bool true) (
                field "local_steps" (int (pos 4)) (
                  field "hidden_size" (int (pos 128)) (
                    field "heads" (int (pos 4))
                      (field "min_measured_seconds" (int (pos 40)) end))))))))))

periodic_accepted : strategy_for_config toy no_text config ≡ ok periodic_local_sgd
unfolding strategy_for_config validate_config validate_declaration validate_parameters
    validate_shared common_bounds validate_bound validate_measured scaled member get field_names
    contains lookup strategies float_unit float_limit
periodic_accepted = refl

periodic_steps :
    synchronization_steps toy no_text no_draw "periodic_local_sgd" (pos 10) config true
    ≡ ok (4 ∷ 8 ∷ 10 ∷ [])
unfolding synchronization_steps chosen_steps should_synchronize is_multiple to_int get field_names
    contains some_of
periodic_steps = refl

strategy_for_config-IsAdmitted_example : IsAdmitted toy no_text config periodic_local_sgd
strategy_for_config-IsAdmitted_example =
    strategy_for_config-IsAdmitted toy no_text config {s = periodic_local_sgd} periodic_accepted

named : periodic_local_sgd.strategy_id ≡ "periodic_local_sgd"
unfolding periodic_local_sgd
named = refl

synchronization_steps-periodic_example :
    (k : ℕ) × (1 ≤ k)
    × (k ≤ 100)
    × (to_int toy (get config "local_steps") ≡ ok (pos k))
    × ((n : ℕ) (include_final : Bool)
        → (steps : List ℕ) × (synchronization_steps toy no_text no_draw
              periodic_local_sgd.strategy_id
              (pos n)
              config
              include_final
            ≡ ok steps)
          × IsPeriodicSchedule k n include_final steps)
synchronization_steps-periodic_example =
    synchronization_steps-periodic toy no_text no_draw config {s = periodic_local_sgd}
      periodic_accepted named

-- Three steps of two ranks, with sums in place of floats.
abbrev sums : Floats ℕ
sums = record { zero_float = 0; add = λ a b. a + b; divide = λ a n. a / n }

abbrev updates : List (List ℕ)
updates = (1 ∷ 3 ∷ []) ∷ (2 ∷ 2 ∷ []) ∷ (0 ∷ 4 ∷ []) ∷ []

short_schedule :
    synchronization_steps toy no_text no_draw "periodic_local_sgd"
      (pos (length updates))
      config
      true
    ≡ ok (3 ∷ [])
unfolding synchronization_steps chosen_steps should_synchronize is_multiple to_int get field_names
    contains some_of
short_schedule = refl

simulate_parameter_averaging-agrees_example :
    (history : List (List ℕ)) × (simulate_parameter_averaging sums
        (10 ∷ 20 ∷ [])
        updates
        (map pos (3 ∷ []))
      ≡ ok history)
    × (length history ≡ 3)
    × IsHistory 2 (map pos (3 ∷ [])) 1 history
    × EndsAgreed history
simulate_parameter_averaging-agrees_example =
    simulate_parameter_averaging-agrees sums toy no_text no_draw "periodic_local_sgd" config
      (10 ∷ 20 ∷ []) updates {steps = 3 ∷ []} short_schedule (omega arith) (omega arith)

abbrev plan : AdversarialHoldoutPlan
plan = record {
  development_families =
      "gradient_accumulation" ∷ "periodic_local_sgd" ∷ "segmented_runs" ∷ "idle_padding" ∷ [];
  hardening_families =
      "diloco_inspired" ∷ "mixed_training_inference" ∷ "randomized_synchronization" ∷ [];
  final_family = "synthetic_communication_decoy";
  final_session_ids = "session-final" ∷ [];
  final_config_ids = "config-final" ∷ [];
  seed = pos 20260730;
  final_holdout_status = "sealed";
}

plan_valid : validate_plan plan ≡ ok tt
unfolding validate_plan same_set subset every contains some_of strategies periodic_local_sgd
plan_valid = refl

round_for-IsRound_example :
    (round : String) × (round_for plan "idle_padding" "session-final" "config-1" false ≡ ok round)
    × IsRound plan "idle_padding" "session-final" "config-1" false round
unfolding known_families contains strategies
round_for-IsRound_example =
    round_for-IsRound plan "idle_padding" "session-final" "config-1" false plan_valid refl

sealed_round :
    round_for plan "idle_padding" "session-final" "config-1" false ≡ ok "sealed_final_holdout"
unfolding round_for is_final_identity plan_valid
sealed_round = refl
