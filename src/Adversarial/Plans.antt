-- ===== src/Adversarial/Plans.antt =====
-- The assignment of a plan that `AdversarialHoldoutPlan.validate` of src/commguard/adversarial.py accepts.
use comm_guard.Prelude.{
  ℕ, ◌+◌, ◌≡◌, refl, String, Bool, true, false, ◌||◌, inl, inr, List, [], ◌∷◌, ◌++◌, ◌==◌, arith,
  is_empty, contains, some_of, same_set, subset, every, contains-append, Bool-cases, eq_refl,
  str_eq→eq, and-true, ok, raise_if-then,
}
use comm_guard.Schemas.Values.{require-then, require-ok}
use comm_guard.Adversarial.Holdout.{
  AdversarialHoldoutPlan, known_families, declared_families, validate_plan,
}

abbrev pub one_if : Bool → ℕ
one_if true = 1
one_if false = 0

-- A valid plan, as its checks leave it.
pub record IsPlan (p : AdversarialHoldoutPlan) : Type 0 where
  pub assigned :
      (family : String)
      → contains known_families family ≡ true
      → one_if (contains p.development_families family)
          + one_if (contains p.hardening_families family)
          + one_if (family == p.final_family)
        ≡ 1
  pub sessions : is_empty p.final_session_ids ≡ false
  pub configs : is_empty p.final_config_ids ≡ false
  pub is_sealed : p.final_holdout_status ≡ "sealed"

subset-contains :
    (xs ys : List String) (a : String)
    → subset xs ys ≡ true
    → contains xs a ≡ true
    → contains ys a ≡ true
unfolding subset every contains
subset-contains [] ys a s h = cc
subset-contains (x ∷ xs) ys a s h = elim (Bool-cases (a == x)) [
  | inl same ↦ let e : a ≡ x = str_eq→eq a x same in rw e ((and-true _ _ s).0)
  | inr other ↦ subset-contains xs ys a ((and-true _ _ s).1) (rw other at h)
]

disjoint-contains :
    (xs ys : List String) (a : String)
    → some_of (contains ys) xs ≡ false
    → contains xs a ≡ true
    → contains ys a ≡ false
unfolding some_of contains
disjoint-contains [] ys a s h = cc
disjoint-contains (x ∷ xs) ys a s h = elim (Bool-cases (a == x)) [
  | inl same ↦ let e : a ≡ x = str_eq→eq a x same in rw e (ground arith)
  | inr other ↦ disjoint-contains xs ys a (ground arith) (rw other at h)
]

contains-single : (a b : String) → contains (a ∷ []) b ≡ (b == a || false)
unfolding contains
contains-single a b = refl

assigned_once :
    (p : AdversarialHoldoutPlan) (family : String)
    → same_set (declared_families p) known_families ≡ true
    → some_of (contains p.hardening_families) p.development_families ≡ false
    → contains (p.development_families ++ p.hardening_families) p.final_family ≡ false
    → contains known_families family ≡ true
    → one_if (contains p.development_families family)
        + one_if (contains p.hardening_families family)
        + one_if (family == p.final_family)
      ≡ 1
unfolding same_set
assigned_once p family same apart final_apart known =
    let declared =
      subset-contains known_families (declared_families p) family (and-true _ _ same).1 known in
    let dev = contains p.development_families family in
    let hard = contains p.hardening_families family in
    let spread : (dev || (hard || (family == p.final_family || false))) ≡ true =
      rw (contains-append, contains-append, contains-single) at declared in
    elim (Bool-cases (family == p.final_family)) [
      | inl final ↦
          let e = str_eq→eq family p.final_family final in
          let out = rw contains-append at final_apart in
          rw e (ground (arith, eq_refl p.final_family))
      | inr other ↦ elim (Bool-cases dev) [
        | inl first ↦
            let second = disjoint-contains _ _ family apart first in rw (first, second, other) refl
        | inr rest ↦ ground arith
      ]
    ]

-- A plan that its checks accept is sealed, declares held out sessions and configurations, and assigns each
-- strategy family to exactly one of development, hardening and the final holdout.
pub validate_plan-IsPlan :
    (p : AdversarialHoldoutPlan) {u : Unit {0}} → validate_plan p ≡ ok u → IsPlan p
unfolding validate_plan
validate_plan-IsPlan p h =
    let (same, h1) = require-then (same_set (declared_families p) known_families) _ _ h in
    let (apart, h2) =
      raise_if-then (some_of (contains p.hardening_families) p.development_families) _ _ h1 in
    let (final_apart, h3) =
      raise_if-then (contains (p.development_families ++ p.hardening_families) p.final_family) _ _
        h2 in
    let (held, h4) =
      raise_if-then (is_empty p.final_session_ids || is_empty p.final_config_ids) _ _ h3 in
    record {
      assigned = λ family known. assigned_once p family same apart final_apart known;
      sessions = ground arith;
      configs = ground arith;
      is_sealed = str_eq→eq _ _ (require-ok (p.final_holdout_status == "sealed") _ h4);
    }
