-- ===== src/Adversarial/Admitted.antt =====
-- The configurations that `strategy_for_config` of src/commguard/adversarial.py accepts.
use comm_guard.Prelude.{
  ◌≡◌, refl, String, Bool, ◌||◌, true, false, not, Option, none, some, List, [], ◌∷◌, ◌==◌, ap, inl,
  inr, Bool-cases, All, contains, lookup, ok, >>=-eq-ok, raise_if-then,
}
use comm_guard.Central.Json.{
  Value, null, bool, int, float, text, arr, obj, Fields, get, get_default, field_names,
}
use comm_guard.Central.Messages.{Python}
use comm_guard.Central.Runtime.{str}
use comm_guard.Schemas.Values.{
  equals_text, equals_text-eq, is_true, is_false, require-then, require-ok,
}
use comm_guard.Adversarial.{
  AdversarialStrategy, ParameterBound, FloatOfText, whole, validate_parameters, validate_shared,
  common_bounds, validate_declaration, validate_config, is_undivided, validate_precision,
}
use comm_guard.Adversarial.Measured.{IsMeasured, validate_measured-IsMeasured}
use comm_guard.Adversarial.Bounded.{IsWithin, HasSign, validate_parameters-All, validate_shared-All}
use comm_guard.Adversarial.Table.{known_strategy, strategies, strategy_for_config}

-- What the table says of each strategy: its bounds are not below zero, and the first bound of segmented
-- runs is that of their duration.
abbrev IsWellBounded : AdversarialStrategy → Type 0
IsWellBounded s =
    All HasSign s.parameter_bounds
    × ((s.strategy_id == "segmented_runs") ≡ true
        → (rest : List (String × ParameterBound)) × (s.parameter_bounds
            ≡ ("segment_seconds", whole 5 20) ∷ rest))

pub lookup-All {ℓ κ} :
    {A : Type ℓ} (P : A → Type κ) (k : String) (xs : List (String × A)) {a : A}
    → All (λ e. P e.1) xs
    → lookup k xs ≡ some a
    → P a
unfolding lookup
lookup-All P k [] all found = cc
lookup-All P k ((j, x) ∷ xs) {a = a} all found = elim (Bool-cases (j == k)) [
  | inl here ↦ let e : x ≡ a = cc (rw here at found) in rw (← e) all.0
  | inr there ↦ lookup-All P k xs all.1 (rw there at found)
]

strategies-IsWellBounded : All (λ e. IsWellBounded e.1) strategies
unfolding strategies
strategies-IsWellBounded = (
  ((refl, tt), λ h. cc),
  (
    ((refl, tt), λ h. cc),
    (
      ((refl, tt), λ h. cc),
      (
        ((refl, (refl, (refl, tt))), λ h. (_, refl)),
        (
          ((refl, tt), λ h. cc),
          (((refl, tt), λ h. cc), (((refl, tt), λ h. cc), (((refl, (refl, tt)), λ h. cc), tt))),
        ),
      ),
    ),
  ),
)

common_bounds-HasSign : All HasSign common_bounds
unfolding common_bounds
common_bounds-HasSign = (refl, (refl, (refl, (refl, (refl, (refl, tt))))))

abbrev pub id_of : Python → Fields → String
id_of rt config = str rt (get_default config "strategy_id" (text ""))

left_holds : (a b : Bool) → (not a || not b) ≡ false → a ≡ true
left_holds true b h = refl
left_holds false b h = cc

pub record IsAdmitted (rt : Python) (read : FloatOfText) (config : Fields) (s : AdversarialStrategy)
    : Type 0 where
  pub listed : lookup (id_of rt config) strategies ≡ some s
  pub approved : get config "requires_human_approval" ≡ bool true
  pub disabled : get config "enabled_by_default" ≡ bool false
  pub adversarial : get config "designation" ≡ text "adversarial"
  pub family : get config "family" ≡ text s.family
  pub parameters :
      All
        (λ p. (contains (field_names config) p.0 ≡ true) × IsWithin p.1 (get config p.0))
        s.parameter_bounds
  pub common :
      All
        (λ p. contains (field_names config) p.0 ≡ true → IsWithin p.1 (get config p.0))
        common_bounds
  pub measured : IsMeasured read config

is_true-eq : (v : Value) → is_true v ≡ true → v ≡ bool true
is_true-eq (bool b) h = ap bool h
is_true-eq (text _) h = cc
is_true-eq (obj _) h = cc
is_true-eq (arr _) h = cc
is_true-eq (int _) h = cc
is_true-eq (float _) h = cc
is_true-eq null h = cc

is_false-eq : (v : Value) → is_false v ≡ true → v ≡ bool false
is_false-eq (bool false) h = refl
is_false-eq (bool true) h = cc
is_false-eq (text _) h = cc
is_false-eq (obj _) h = cc
is_false-eq (arr _) h = cc
is_false-eq (int _) h = cc
is_false-eq (float _) h = cc
is_false-eq null h = cc

pub validate_declaration-fields :
    (s : AdversarialStrategy) (config : Fields) {u : Unit {0}}
    → validate_declaration s config ≡ ok u
    → (get config "requires_human_approval" ≡ bool true)
      × (get config "enabled_by_default" ≡ bool false)
      × (get config "designation" ≡ text "adversarial")
      × (get config "family" ≡ text s.family)
unfolding validate_declaration
validate_declaration-fields s config h =
    let (_, h1) = require-then (equals_text s.strategy_id (get config "strategy_id")) _ _ h in
    let family = equals_text s.family (get config "family") in
    let label = equals_text s.target_label (get config "label") in
    let (named, h2) = raise_if-then (not family || not label) _ _ h1 in
    let (_, h3) = require-then (equals_text s.worker_mode (get config "mode")) _ _ h2 in
    let (adversarial, h4) =
      require-then (equals_text "adversarial" (get config "designation")) _ _ h3 in
    let (disabled, h5) = require-then (is_false (get config "enabled_by_default")) _ _ h4 in
    (
      is_true-eq _ (require-ok (is_true (get config "requires_human_approval")) _ h5),
      is_false-eq _ disabled,
      equals_text-eq _ _ adversarial,
      equals_text-eq _ _ (left_holds _ _ named),
    )

known_strategy-ok :
    (o : Option AdversarialStrategy) {s : AdversarialStrategy}
    → known_strategy o ≡ ok s
    → o ≡ some s
known_strategy-ok none h = cc
known_strategy-ok (some s) h = cc

validate_config-IsAdmitted :
    (rt : Python) (read : FloatOfText) (config : Fields) (s : AdversarialStrategy) {u : Unit {0}}
    → lookup (id_of rt config) strategies ≡ some s
    → validate_config read s config ≡ ok u
    → IsAdmitted rt read config s
unfolding validate_config
validate_config-IsAdmitted rt read config s listed valid =
    let (signs, duration) = lookup-All IsWellBounded _ strategies strategies-IsWellBounded listed in
    let (_, identity, v1) = >>=-eq-ok (validate_declaration s config) _ valid in
    let (_, params, v2) = >>=-eq-ok (validate_parameters s.parameter_bounds config) _ v1 in
    let (_, shared, v3) = >>=-eq-ok (validate_shared common_bounds config) _ v2 in
    let (_, v4) = raise_if-then (is_undivided config) _ _ v3 in
    let (_, _, v5) = >>=-eq-ok (validate_precision (get config "precision")) _ v4 in
    let (approved, disabled, adversarial, family) = validate_declaration-fields s config identity in
    let parameters = validate_parameters-All s.parameter_bounds config signs params in
    record {
      listed = listed;
      approved = approved;
      disabled = disabled;
      adversarial = adversarial;
      family = family;
      parameters = parameters;
      common = validate_shared-All common_bounds config common_bounds-HasSign shared;
      measured =
          validate_measured-IsMeasured read s config
            (λ segmented. let (rest, e) = duration segmented in (rw e at parameters).0.1) v5;
    }

-- A configuration that `strategy_for_config` accepts names a strategy of the table, declares an adversarial
-- run that is disabled by default and requires approval, has each parameter of the strategy within its
-- bounds and a whole number where the bounds ask for it, keeps the common bounds, and asks for a
-- measurement of at least 5 and at most 60 seconds.
pub strategy_for_config-IsAdmitted :
    (rt : Python) (read : FloatOfText) (config : Fields) {s : AdversarialStrategy}
    → strategy_for_config rt read config ≡ ok s
    → IsAdmitted rt read config s
unfolding strategy_for_config validate_config
strategy_for_config-IsAdmitted rt read config {s = s} h =
    let (t, known, h1) = >>=-eq-ok (known_strategy (lookup (id_of rt config) strategies)) _ h in
    let (_, valid, h2) = >>=-eq-ok (validate_config read t config) _ h1 in
    let same : t ≡ s = cc h2 in
    let listed = known_strategy-ok (lookup (id_of rt config) strategies) (rw same at known) in
    validate_config-IsAdmitted rt read config s listed (rw same at valid)
