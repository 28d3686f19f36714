-- ===== src/Features/Extraction/Rows.antt =====
-- The loop over the windows of src/commguard/features/extraction.py, as what all of its rows have in common.
use comm_guard.Prelude.{
  ◌≡◌, refl, ℕ, zero, suc, ◌+◌, ◌≤◌, Option, none, some, List, [], ◌∷◌, ◌++◌, leb, All, Bool-cases,
  inl, inr, arith, Result, ok, >>=-eq-ok,
}
use comm_guard.Features.Extraction.{add_row, window_rows}

All-add_row {ℓ κ} :
    {R : Type ℓ} (P : R → Type κ) (found : Option R) (rows : List R)
    → ((r : R) → found ≡ some r → P r)
    → All P rows
    → All P (add_row found rows)
All-add_row P none rows h hs = hs
All-add_row P (some r) rows h hs = (h r refl, hs)

pub All-append {ℓ κ} :
    {R : Type ℓ} (P : R → Type κ) (xs ys : List R) → All P xs → All P ys → All P (xs ++ ys)
All-append P [] ys h hs = hs
All-append P (x ∷ xs) ys h hs = (h.0, All-append P xs ys h.1 hs)

-- What holds of each row of a window in the interval holds of the rows of the loop.
pub All-window_rows {ℓ κ} :
    {R : Type ℓ} (P : R → Type κ) (row : ℕ → ℕ → Result (Option R))
    (width stride stop fuel index start low : ℕ) (rows : List R)
    → ((i s : ℕ) (r : R) → low ≤ s → s + width ≤ stop → row i s ≡ ok (some r) → P r)
    → low ≤ start
    → window_rows row width stride stop fuel index start ≡ ok rows
    → All P rows
unfolding window_rows
All-window_rows P row width stride stop zero index start low [] each h e = tt
All-window_rows P row width stride stop zero index start low (r ∷ rows) each h e = cc
All-window_rows P row width stride stop (suc fuel) index start low rows each h e =
    elim (Bool-cases (leb (start + width) stop)) [
      | inl fits ↦
          let (found, e1, e2) = >>=-eq-ok (row index start) _ (rw (fits, window_rows) at e) in
          let (rest, e3, e4) =
            >>=-eq-ok (window_rows row width stride stop fuel (index + 1) (start + stride)) _ e2 in
          let same : add_row found rest ≡ rows = cc e4 in
          let later =
            All-window_rows P row width stride stop fuel (index + 1) (start + stride) low rest each
              (omega arith) e3 in
          rw (← same) (
            All-add_row P found rest (λ r is. each index start r h (ground arith) (rw is at e1))
              later)
      | inr over ↦ let same : [] ≡ rows = cc (rw (over, window_rows) at e) in rw (← same) tt
    ]
