-- ===== src/Central/Json.antt =====
-- The JSON values that a central-monitoring message carries inside its telemetry samples.
use comm_guard.Prelude.{
  String, Bool, true, false, List, [], ◌∷◌, ◌==◌, ℤ, is_zero, if◌then◌else◌, non_empty, contains,
}

-- `float n` is the finite float n / 2 ^ 1074, and every finite float is one.
mutual
  -- An object: its keys in insertion order.
  pub data Fields : Type 0 where
    field : (key : String) (child : Value) (rest : Fields) → Fields
    end : Fields

  -- An array.
  pub data Items : Type 0 where
    cons : (first : Value) (rest : Items) → Items
    nil : Items

  pub data Value : Type 0 where
    obj : (fields : Fields) → Value
    arr : (items : Items) → Value
    text : (string : String) → Value
    int float : (number : ℤ) → Value
    bool : (flag : Bool) → Value
    null : Value

-- `bool(value)`
abbrev pub truthy : Value → Bool
truthy null = false
truthy (bool b) = b
truthy (int n) = if is_zero n then false else true
truthy (float n) = if is_zero n then false else true
truthy (text s) = non_empty s
truthy (arr nil) = false
truthy (arr (cons x xs)) = true
truthy (obj end) = false
truthy (obj (field k v fs)) = true

-- `isinstance(value, Mapping)`
abbrev pub is_mapping : Value → Bool
is_mapping (obj fs) = true
is_mapping _ = false

-- `mapping.get(key)`
unfoldable pub get : Fields → String → Value
get end k = null
get (field j v fs) k = if j == k then v else get fs k

unfoldable pub field_names : Fields → List String
field_names end = []
field_names (field k v fs) = k ∷ field_names fs

-- `mapping.get(key, default)`
abbrev pub get_default : Fields → String → Value → Value
get_default fs k d = if contains (field_names fs) k then get fs k else d
