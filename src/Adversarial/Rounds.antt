-- ===== src/Adversarial/Rounds.antt =====
-- The rounds of `AdversarialHoldoutPlan.round_for` of src/commguard/adversarial.py.
use comm_guard.Prelude.{
  ◌+◌, ◌≡◌, ◌≢◌, refl, ap, String, Bool, true, false, ◌⊎◌, inl, inr, [], ◌∷◌, ◌==◌, arith, contains,
  if◌then◌else◌, Bool-cases, eq→str_eq, str_eq→eq, ok,
}
use comm_guard.Adversarial.Plans.{one_if, validate_plan-IsPlan}
use comm_guard.Adversarial.Holdout.{
  AdversarialHoldoutPlan, known_families, validate_plan, is_final_identity, round_for,
}

-- The round of a run, with what the plan says of the run.
pub record IsRound (p : AdversarialHoldoutPlan) (family session_id config_id : String)
    (release_final : Bool) (round : String) : Type 0 where
  pub held_out :
      (round ≡ "final_test") ⊎ (round ≡ "sealed_final_holdout")
      → (family ≡ p.final_family)
        ⊎ ((contains p.final_session_ids session_id ≡ true)
            ⊎ (contains p.final_config_ids config_id ≡ true))
  pub released : round ≡ "final_test" → release_final ≡ true
  pub kept_back : round ≡ "sealed_final_holdout" → release_final ≡ false
  pub open_round :
      (round ≡ "development") ⊎ (round ≡ "hardening")
      → (family ≢ p.final_family)
        × (contains p.final_session_ids session_id ≡ false)
        × (contains p.final_config_ids config_id ≡ false)
  pub development : round ≡ "development" → contains p.development_families family ≡ true
  pub hardening : round ≡ "hardening" → contains p.hardening_families family ≡ true
  pub is_one_of :
      contains ("development" ∷ "hardening" ∷ "final_test" ∷ "sealed_final_holdout" ∷ []) round
      ≡ true

-- Two different literals are not equal.
clash {ℓ} : {A : Type ℓ} (s t : String) → (s == t) ≡ false → s ≡ t → A
clash s t other same = let e = eq→str_eq s t same in absurd (ground arith)

neither {ℓ} :
    {A : Type ℓ} (round s t : String)
    → (round == s) ≡ false
    → (round == t) ≡ false
    → (round ≡ s) ⊎ (round ≡ t)
    → A
neither round s t a b (inl e) = clash round s a e
neither round s t a b (inr e) = clash round t b e

ne→str_eq : (s t : String) → s ≢ t → (s == t) ≡ false
ne→str_eq s t apart = elim (Bool-cases (s == t)) [
  | inl same ↦ absurd (apart (str_eq→eq s t same))
  | inr other ↦ other
]

left_assigned :
    (a b c : Bool) → one_if a + one_if b + one_if c ≡ 1 → b ≡ false → c ≡ false → a ≡ true
left_assigned true b c once no_b no_c = refl
left_assigned false b c once no_b no_c = absurd (omega (arith, ap one_if no_b, ap one_if no_c))

module _ (p : AdversarialHoldoutPlan) (family session_id config_id : String) where
  abbrev Held : Type 0
  Held =
      (family ≡ p.final_family)
      ⊎ ((contains p.final_session_ids session_id ≡ true)
          ⊎ (contains p.final_config_ids config_id ≡ true))

  held_because : is_final_identity p family session_id config_id ≡ true → Held
  unfolding is_final_identity
  held_because final = elim (Bool-cases (family == p.final_family)) [
    | inl same ↦ inl (str_eq→eq _ _ same)
    | inr other ↦ elim (Bool-cases (contains p.final_session_ids session_id)) [
      | inl session ↦ inr (inl session)
      | inr no_session ↦ inr (inr (ground arith))
    ]
  ]

  abbrev Open : Type 0
  Open =
      (family ≢ p.final_family)
      × (contains p.final_session_ids session_id ≡ false)
      × (contains p.final_config_ids config_id ≡ false)

  open_because : is_final_identity p family session_id config_id ≡ false → Open
  unfolding is_final_identity
  open_because not_final =
      (λ same. let e = eq→str_eq _ _ same in ground arith, ground arith, ground arith)

  final-IsRound :
      (release : Bool)
      → is_final_identity p family session_id config_id ≡ true
      → IsRound p family session_id config_id release
          (if release then "final_test" else "sealed_final_holdout")
  unfolding contains
  final-IsRound true final = record {
    held_out = λ _. held_because final;
    released = λ _. refl;
    kept_back = clash _ _ refl;
    open_round = neither _ _ _ refl refl;
    development = clash _ _ refl;
    hardening = clash _ _ refl;
    is_one_of = refl;
  }
  final-IsRound false final = record {
    held_out = λ _. held_because final;
    released = clash _ _ refl;
    kept_back = λ _. refl;
    open_round = neither _ _ _ refl refl;
    development = clash _ _ refl;
    hardening = clash _ _ refl;
    is_one_of = refl;
  }

  hardening-IsRound :
      (release : Bool)
      → is_final_identity p family session_id config_id ≡ false
      → contains p.hardening_families family ≡ true
      → IsRound p family session_id config_id release "hardening"
  unfolding contains
  hardening-IsRound release not_final there = record {
    held_out = neither _ _ _ refl refl;
    released = clash _ _ refl;
    kept_back = clash _ _ refl;
    open_round = λ _. open_because not_final;
    development = clash _ _ refl;
    hardening = λ _. there;
    is_one_of = refl;
  }

  development-IsRound :
      (release : Bool)
      → is_final_identity p family session_id config_id ≡ false
      → contains p.development_families family ≡ true
      → IsRound p family session_id config_id release "development"
  unfolding contains
  development-IsRound release not_final there = record {
    held_out = neither _ _ _ refl refl;
    released = clash _ _ refl;
    kept_back = clash _ _ refl;
    open_round = λ _. open_because not_final;
    development = λ _. there;
    hardening = clash _ _ refl;
    is_one_of = refl;
  }

-- For a plan that its checks accept, each run of a known strategy family has a round, one of development,
-- hardening, the final test and the sealed final holdout. The last two are given only to a run of the final
-- family, of a held out session or of a held out configuration, the final test only when it is released and
-- the sealed holdout only when it is not; development and hardening only to a run of none of them, whose
-- family the plan assigns to that round.
pub round_for-IsRound :
    (p : AdversarialHoldoutPlan) (family session_id config_id : String) (release_final : Bool)
    {u : Unit {0}}
    → validate_plan p ≡ ok u
    → contains known_families family ≡ true
    → (round : String) × (round_for p family session_id config_id release_final ≡ ok round)
      × IsRound p family session_id config_id release_final round
unfolding round_for
round_for-IsRound p family session_id config_id release valid known =
    elim (Bool-cases (is_final_identity p family session_id config_id)) [
      | inl final ↦ (
        if release then "final_test" else "sealed_final_holdout",
        rw (valid, final) refl,
        final-IsRound p family session_id config_id release final,
      )
      | inr not_final ↦ elim (Bool-cases (contains p.hardening_families family)) [
        | inl there ↦ (
          "hardening",
          rw (valid, not_final, there) refl,
          hardening-IsRound p family session_id config_id release not_final there,
        )
        | inr away ↦
            let once = (validate_plan-IsPlan p valid).assigned family known in
            let other = (open_because p family session_id config_id not_final).0 in
            let no : (family == p.final_family) ≡ false = ne→str_eq family p.final_family other in
            let there = left_assigned _ _ _ once away no in
            (
              "development",
              rw (valid, not_final, away, there) refl,
              development-IsRound p family session_id config_id release not_final there,
            )
      ]
    ]
