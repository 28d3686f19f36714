-- ===== src/Adversarial.antt =====
-- src/commguard/adversarial.py: the bounds of a strategy's parameters, `validate_config` and
-- `strategy_for_config`; the children are the table, the schedules, the averaging and the holdouts.
pub mod Table
pub mod Bounded
pub mod Measured
pub mod Admitted
pub mod Schedule
pub mod Steps
pub mod Periodic
pub mod Averaging
pub mod Agreement
pub mod Holdout
pub mod Plans
pub mod Rounds
pub mod Tests
use Prim.Native.String.{◌++◌ as append}
use comm_guard.Prelude.{
  ℕ, ◌+◌, ◌-◌, ◌*◌, ◌/◌, String, Bool, true, false, not, ◌&&◌, ◌||◌, Option, none, some, List, [],
  ◌∷◌, ◌==◌, ℤ, pos, negsuc, eq_z, ltz, abs, leb, eqb, if◌then◌else◌, contains, Exception,
  value_error, type_error, overflow_error, key_error, Result, ok, err, ◌>>=◌, ◌>>◌, raise_if,
}
use comm_guard.Central.Json.{
  Value, null, bool, int, float, text, arr, obj, Fields, get, get_default, field_names,
}
use comm_guard.Central.Samples.{float_unit, float_limit}
use comm_guard.Schemas.Values.{is_null, is_true, is_false, equals_text, member, scaled}

-- A float of the source, scaled: `n / d` for a power `d` of two up to 2 ^ 1074.
abbrev pub Scaled : Type 0
Scaled = ℤ

pub record ParameterBound : Type 0 where
  pub minimum : Scaled
  pub maximum : Scaled
  pub integral : Bool

-- `isinstance(value, bool) or not isinstance(value, (int, float))`
abbrev pub is_no_number : Value → Bool
is_no_number (int n) = false
is_no_number (float n) = false
is_no_number _ = true

-- `float(value)` of a number. Where an integer is beyond 2 ^ 53 the conversion may round it; the bounds
-- are compared with the integer itself, which is outside of the source's bounds either way.
abbrev pub float_number : Value → Result Scaled
float_number (int n) =
    if leb float_limit (abs n)
    then err (overflow_error "int too large to convert to float")
    else elim (scaled (int n)) [ some k ↦ ok k | none ↦ err (type_error "must be a real number") ]
float_number (float n) = ok n
float_number _ = err (type_error "must be a real number")

-- `numeric == int(numeric)`
abbrev pub is_integral : Scaled → Bool
is_integral n = eqb (abs n / float_unit * float_unit) (abs n)

-- `minimum <= numeric <= maximum`
abbrev pub is_between : ParameterBound → Scaled → Bool
is_between b n = not (ltz n b.minimum) && not (ltz b.maximum n)

abbrev parameter_error : String → String → Exception
parameter_error name problem =
    value_error (append "adversarial parameter " (append name (append " " problem)))

-- `ParameterBound.validate`
unfoldable pub validate_bound : ParameterBound → String → Value → Result (Unit {0})
unfolding scaled float_limit
validate_bound b name v = do
  raise_if (is_no_number v) (parameter_error name "must be numeric")
  numeric ← float_number v
  raise_if (not (is_between b numeric)) (parameter_error name "is outside its bounds")
  raise_if (b.integral && not (is_integral numeric)) (parameter_error name "must be integral")

pub record AdversarialStrategy : Type 0 where
  pub strategy_id : String
  pub family : String
  pub target_label : String
  pub worker_mode : String
  pub research_purpose : String
  pub synchronization_semantics : String
  pub parameter_bounds : List (String × ParameterBound)
  pub claim_boundary : String
  pub enabled_by_default : Bool
  pub requires_human_approval : Bool

-- A bound between two integers.
abbrev pub whole : ℕ → ℕ → ParameterBound
whole lo hi = record {
  minimum = pos (lo * float_unit);
  maximum = pos (hi * float_unit);
  integral = true;
}

-- `common_bounds`
unfoldable pub common_bounds : List (String × ParameterBound)
unfolding float_unit
common_bounds =
    ("batch_size", whole 1 4)
    ∷ ("sequence_length", whole 32 512)
    ∷ ("hidden_size", whole 64 256)
    ∷ ("layers", whole 1 3)
    ∷ ("heads", whole 1 8)
    ∷ ("warmup_seconds", record (whole 0 10) { integral = false })
    ∷ []

-- The loop over the bounds of the strategy: each parameter is required.
unfoldable pub validate_parameters : List (String × ParameterBound) → Fields → Result (Unit {0})
validate_parameters [] config = ok tt
validate_parameters ((name, b) ∷ rest) config = do
  raise_if (not (contains (field_names config) name))
      (value_error (append "requires parameter " name))
  validate_bound b name (get config name)
  validate_parameters rest config

-- `if name in config: bound.validate(name, config[name])`
abbrev pub validate_declared : Bool → ParameterBound → String → Value → Result (Unit {0})
validate_declared true b name v = validate_bound b name v
validate_declared false b name v = ok tt

-- The loop over the common bounds: a parameter may be absent.
unfoldable pub validate_shared : List (String × ParameterBound) → Fields → Result (Unit {0})
validate_shared [] config = ok tt
validate_shared ((name, b) ∷ rest) config = do
  validate_declared (contains (field_names config) name) b name (get config name)
  validate_shared rest config

-- `int(config[name])` of a parameter that its bounds have found to be a whole number, not negative.
abbrev pub whole_of : Value → ℕ
whole_of v = elim (scaled v) [ some n ↦ abs n / float_unit | none ↦ 0 ]

-- The two sizes are both declared and the first is no multiple of the second.
abbrev pub is_undivided : Fields → Bool
is_undivided config =
    contains (field_names config) "hidden_size"
    && (contains (field_names config) "heads"
        && not (
            eqb
              (whole_of (get config "hidden_size")
                / whole_of (get config "heads")
                * whole_of (get config "heads"))
              (whole_of (get config "hidden_size"))))

-- `float(text)`, and `none` for a text that is no finite number: as the measured duration it is refused
-- by a `ValueError` in either case.
abbrev pub FloatOfText : Type 0
FloatOfText = String → Option Scaled

-- `float(value)`
abbrev pub to_float : FloatOfText → Value → Result Scaled
to_float read (text s) = elim (read s) [
  | some n ↦ ok n
  | none ↦ err (value_error "could not convert string to float")
]
to_float read (bool true) = ok (pos (1 * float_unit))
to_float read (bool false) = ok (pos 0)
to_float read v = float_number v

-- `config[name]`
abbrev pub at_key : Fields → String → Result Value
at_key config name = do
  raise_if (not (contains (field_names config) name)) (key_error name)
  ok (get config name)

abbrev mismatch : String → Exception
mismatch problem = value_error (append "strategy " problem)

-- The last check of `validate_config`, of the measured duration.
unfoldable pub validate_measured : FloatOfText → AdversarialStrategy → Fields → Result (Unit {0})
unfolding scaled float_unit float_limit
validate_measured read s config = do
  measured ← to_float read (get_default config "min_measured_seconds" (int (pos 0)))
  elim (s.strategy_id == "segmented_runs") [
    | true ↦ do
      segment ← at_key config "segment_seconds"
      duration ← to_float read segment
      raise_if (not (eq_z measured duration))
          (value_error "segmented run duration must equal segment_seconds")
    | false ↦
        raise_if (not (is_between (whole 35 60) measured))
          (value_error "adversarial measured duration must be within [35, 60] seconds")
  ]

-- The checks of `validate_config` before its loops.
unfoldable pub validate_declaration : AdversarialStrategy → Fields → Result (Unit {0})
validate_declaration s config = do
  raise_if (not (equals_text s.strategy_id (get config "strategy_id")))
      (mismatch "config has mismatched strategy_id")
  raise_if
      (not (equals_text s.family (get config "family"))
        || not (equals_text s.target_label (get config "label")))
      (mismatch "has mismatched family or label")
  raise_if (not (equals_text s.worker_mode (get config "mode")))
      (mismatch "has mismatched worker mode")
  raise_if (not (equals_text "adversarial" (get config "designation")))
      (mismatch "must be adversarial")
  raise_if (not (is_false (get config "enabled_by_default")))
      (mismatch "cannot be enabled by default")
  raise_if (not (is_true (get config "requires_human_approval")))
      (mismatch "requires explicit human approval")

-- `config.get("precision") not in {None, "float16", "float32", "bfloat16"}`
abbrev pub validate_precision : Value → Result (Unit {0})
validate_precision v = do
  known ← member ("float16" ∷ "float32" ∷ "bfloat16" ∷ []) v
  raise_if (not (known || is_null v)) (value_error "adversarial precision must be a float type")

-- `AdversarialStrategy.validate_config`
unfoldable pub validate_config : FloatOfText → AdversarialStrategy → Fields → Result (Unit {0})
unfolding scaled float_unit member
validate_config read s config = do
  validate_declaration s config
  validate_parameters s.parameter_bounds config
  validate_shared common_bounds config
  raise_if (is_undivided config) (value_error "adversarial hidden_size must be divisible by heads")
  validate_precision (get config "precision")
  validate_measured read s config
