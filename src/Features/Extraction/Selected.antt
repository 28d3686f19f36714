-- ===== src/Features/Extraction/Selected.antt =====
-- Which samples of a run a window and a device have, in src/commguard/features/extraction.py.
use comm_guard.Prelude.{
  ◌≡◌, ◌⊎◌, ℕ, ◌≤◌, ◌<◌, Bool, true, false, ◌&&◌, List, [], ◌∷◌, leb, ltb, eqb, keep, Bool-cases,
  inl, inr, arith,
}
use comm_guard.Features.Extraction.{select}

-- A sublist in the same order: what is `In` is taken, and only what is `Out` is left.
pub data IsSelection {ℓ} {A : Type ℓ} (In Out : A → Type 0) : List A → List A → Type ℓ where
  nil : IsSelection In Out [] []
  inside :
      {x : A} {xs chosen : List A}
      → In x
      → IsSelection In Out xs chosen
      → IsSelection In Out (x ∷ xs) (x ∷ chosen)
  outside :
      {x : A} {xs chosen : List A}
      → Out x
      → IsSelection In Out xs chosen
      → IsSelection In Out (x ∷ xs) chosen

keep-IsSelection {ℓ} :
    {A : Type ℓ} {In Out : A → Type 0} (test : A → Bool) (xs : List A)
    → ((x : A) → test x ≡ true → In x)
    → ((x : A) → test x ≡ false → Out x)
    → IsSelection In Out xs (keep test xs)
unfolding keep
keep-IsSelection test [] taken left = IsSelection.nil
keep-IsSelection test (x ∷ xs) taken left = elim (Bool-cases (test x)) [
  | inl e ↦ rw e (IsSelection.inside (taken x e) (keep-IsSelection test xs taken left))
  | inr e ↦ rw e (IsSelection.outside (left x e) (keep-IsSelection test xs taken left))
]

module _ {ℓ} {A : Type ℓ} (gpu time : A → ℕ) where
  -- The samples of the window from `start` to before `stop`.
  abbrev pub IsInterval : (start stop : ℕ) → List A → List A → Type ℓ
  IsInterval start stop =
      IsSelection (λ s. (start ≤ time s) × (time s < stop))
        (λ s. (time s < start) ⊎ (stop ≤ time s))

  -- The samples of one device.
  abbrev pub IsDevice : (index : ℕ) → List A → List A → Type ℓ
  IsDevice index = IsSelection (λ s. gpu s ≡ index) (λ s. ¬ (gpu s ≡ index))

  in_window : (start stop t : ℕ) → (leb start t && ltb t stop) ≡ true → (start ≤ t) × (t < stop)
  in_window start stop t e = (ground arith, ground arith)

  out_of_window :
      (start stop t : ℕ) → (leb start t && ltb t stop) ≡ false → (t < start) ⊎ (stop ≤ t)
  out_of_window start stop t e = elim (Bool-cases (leb start t)) [
    | inl late ↦ inr (ground arith)
    | inr early ↦ inl (ground arith)
  ]

  pub select-IsInterval :
      (start stop : ℕ) (samples : List A)
      → IsInterval start stop samples (select gpu time start stop samples)
  select-IsInterval start stop samples =
      keep-IsSelection (λ s. leb start (time s) && ltb (time s) stop) samples
        (λ s. in_window start stop (time s)) (λ s. out_of_window start stop (time s))

  pub keep-IsDevice :
      (index : ℕ) (samples : List A)
      → IsDevice index samples (keep (λ s. eqb (gpu s) index) samples)
  keep-IsDevice index samples =
      keep-IsSelection (λ s. eqb (gpu s) index) samples (λ s e. ground arith)
        (λ s e same. ground arith)
