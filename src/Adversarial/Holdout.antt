-- ===== src/Adversarial/Holdout.antt =====
-- `AdversarialHoldoutPlan` of src/commguard/adversarial.py.
use comm_guard.Prelude.{
  String, Bool, not, ◌||◌, List, [], ◌∷◌, ◌++◌, ◌==◌, ℤ, is_empty, contains, some_of, same_set,
  keys, if◌then◌else◌, value_error, Result, ok, err, ◌>>◌, raise_if,
}
use comm_guard.Adversarial.Table.{strategies}

pub record AdversarialHoldoutPlan : Type 0 where
  pub development_families : List String
  pub hardening_families : List String
  pub final_family : String
  pub final_session_ids : List String
  pub final_config_ids : List String
  pub seed : ℤ
  pub final_holdout_status : String

-- `set(ADVERSARIAL_STRATEGIES)`
unfoldable pub known_families : List String
unfolding strategies
known_families = keys strategies

abbrev pub declared_families : AdversarialHoldoutPlan → List String
declared_families p = p.development_families ++ (p.hardening_families ++ p.final_family ∷ [])

-- `AdversarialHoldoutPlan.validate`
unfoldable pub validate_plan : AdversarialHoldoutPlan → Result (Unit {0})
unfolding known_families
validate_plan p = do
  raise_if (not (same_set (declared_families p) known_families))
      (value_error "holdout plan must assign every strategy family exactly once")
  raise_if (some_of (contains p.hardening_families) p.development_families)
      (value_error "development and hardening families must be disjoint")
  raise_if (contains (p.development_families ++ p.hardening_families) p.final_family)
      (value_error "final family cannot enter development or hardening")
  raise_if (is_empty p.final_session_ids || is_empty p.final_config_ids)
      (value_error "final session and configuration holdouts must be declared")
  raise_if (not (p.final_holdout_status == "sealed"))
      (value_error "new adversarial holdout plans must start sealed")

-- `AdversarialHoldoutPlan.is_final_identity`
unfoldable pub is_final_identity : AdversarialHoldoutPlan → String → String → String → Bool
is_final_identity p family session_id config_id =
    family == p.final_family
    || (contains p.final_session_ids session_id || contains p.final_config_ids config_id)

-- `AdversarialHoldoutPlan.round_for`
unfoldable pub round_for :
    AdversarialHoldoutPlan
    → (family session_id config_id : String) → (release_final : Bool) → Result String
round_for p family session_id config_id release_final = do
  validate_plan p
  (if is_final_identity p family session_id config_id
      then ok (if release_final then "final_test" else "sealed_final_holdout")
      else if contains p.hardening_families family
      then ok "hardening"
      else if contains p.development_families family
      then ok "development"
      else err (value_error "unassigned adversarial family"))
