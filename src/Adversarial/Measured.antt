-- ===== src/Adversarial/Measured.antt =====
-- The measured duration that the checks of src/commguard/adversarial.py accept.
use comm_guard.Prelude.{
  ℕ, ◌*◌, ◌≤◌, ◌≡◌, refl, sym, String, true, false, some, ◌==◌, ◌∙◌, arith, ap, pos, eq_z, eq_z→eq,
  inl, inr, Bool-cases, contains, Result, ok, >>=-eq-ok,
}
use comm_guard.Central.Json.{
  Value, null, bool, int, float, text, arr, obj, Fields, get, get_default, field_names,
}
use comm_guard.Central.Samples.{float_unit}
use comm_guard.Schemas.Values.{scaled, require-then, require-ok}
use comm_guard.Adversarial.{
  AdversarialStrategy, FloatOfText, Scaled, whole, to_float, is_between, validate_measured, at_key,
}
use comm_guard.Adversarial.Bounded.{IsWithin, between-bounds, float_number-scaled}

-- The measured duration, in seconds.
abbrev pub measured_of : FloatOfText → Fields → Result Scaled
measured_of read config = to_float read (get_default config "min_measured_seconds" (int (pos 0)))

abbrev pub IsMeasured : FloatOfText → Fields → Type 0
IsMeasured read config =
    (n : ℕ) × (measured_of read config ≡ ok (pos n)) × (5 * float_unit ≤ n) × (n ≤ 60 * float_unit)

to_float-eq :
    (read : FloatOfText) (v : Value) (k : ℕ) {d : Scaled}
    → scaled v ≡ some (pos k)
    → to_float read v ≡ ok d
    → d ≡ pos k
unfolding scaled
to_float-eq read (int i) k {d = d} number h =
    let e : some d ≡ some (pos k) = sym (float_number-scaled (int i) h) ∙ number in cc
to_float-eq read (float i) k number h = cc
to_float-eq read (bool true) k number h = cc
to_float-eq read (bool false) k number h = cc
to_float-eq read (text s) k number h = cc
to_float-eq read (obj fs) k number h = cc
to_float-eq read (arr xs) k number h = cc
to_float-eq read null k number h = cc

at_key-ok :
    (config : Fields) (name : String) {v : Value} → at_key config name ≡ ok v → get config name ≡ v
at_key-ok config name h =
    let (_, e) = require-then (contains (field_names config) name) _ (ok (get config name)) h in cc

pub validate_measured-IsMeasured :
    (read : FloatOfText) (s : AdversarialStrategy) (config : Fields) {u : Unit {0}}
    → ((s.strategy_id == "segmented_runs") ≡ true
        → IsWithin (whole 5 20) (get config "segment_seconds"))
    → validate_measured read s config ≡ ok u
    → IsMeasured read config
unfolding validate_measured
validate_measured-IsMeasured read s config segment h =
    let (n, known, h1) = >>=-eq-ok (measured_of read config) _ h in
    elim (Bool-cases (s.strategy_id == "segmented_runs")) [
      | inl segmented ↦
          let h2 = rw segmented at h1 in
          let (v, there, h3) = >>=-eq-ok (at_key config "segment_seconds") _ h2 in
          let (d, duration, h4) = >>=-eq-ok (to_float read v) _ h3 in
          let same = eq_z→eq n d (require-ok (eq_z n d) _ h4) in
          let (k, number, low, high, _) = segment segmented in
          let e =
            to_float-eq read v k (rw (at_key-ok config "segment_seconds" there) at number)
              duration in
          (k, known ∙ ap ok (same ∙ e), low, omega (arith, high))
      | inr other ↦
          let h2 = require-ok (is_between (whole 35 60) n) _ (rw other at h1) in
          let (k, e, low, high) =
            between-bounds (whole 35 60).minimum (whole 35 60).maximum n refl h2 in
          (k, known ∙ ap ok e, omega arith, omega arith)
    ]
