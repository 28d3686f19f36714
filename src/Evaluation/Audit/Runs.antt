-- ===== src/Evaluation/Audit/Runs.antt =====
-- What the run-split part of `audit_leakage` can report.
use comm_guard.Prelude.{
  String, ◌≡◌, refl, Bool, true, false, not, ◌&&◌, List, [], ◌∷◌, map, ◌==◌, eqb, arith, str_eq→eq,
  eq_refl, ap, ◌∙◌, All, Bool-cases, inl, inr, keep, some_of, contains, distinct, length, is_empty,
  is_some, lookup, is_empty-distinct, is_empty-sorted, sorted, and-true, sym, ok, raise_if-then,
}
use comm_guard.Evaluation.Groups.{Assignments}
use comm_guard.Evaluation.Audit.{
  AuditRow, Audit, is_forbidden, is_ambiguous, duration_exclusive, assigned, splits_of, split_leaks,
  audit_leakage,
}

-- A list that only repeats one text has one distinct element.
abbrev Repeats : String → List String → Type 0
Repeats a [] = Unit
Repeats a (x ∷ xs) = (x ≡ a) × Repeats a xs

contains-Repeats :
    (a : String) (xs : List String)
    → Repeats a xs
    → is_empty xs ≡ false
    → contains (distinct xs) a ≡ true
unfolding distinct contains
contains-Repeats a [] r h = cc
contains-Repeats a (x ∷ xs) (e, r) h = elim (Bool-cases (contains (distinct xs) x)) [
  | inl there ↦ rw (there, ← e) there
  | inr fresh ↦ rw (fresh, ← e, eq_refl x) refl
]

length-Repeats :
    (a : String) (xs : List String) → Repeats a xs → is_empty xs ≡ false → length (distinct xs) ≡ 1
unfolding distinct contains
length-Repeats a [] r h = cc
length-Repeats a (x ∷ []) (e, r) h = refl
length-Repeats a (x ∷ y ∷ ys) (e, r) h =
    let there : contains (distinct (y ∷ ys)) x ≡ true = rw e (contains-Repeats a (y ∷ ys) r refl) in
    rw there (length-Repeats a (y ∷ ys) r refl)

splits-Repeats :
    (rows : List AuditRow) (assignments : Assignments) (run_id : String)
    → Repeats
        (assigned assignments run_id)
        (map (λ r. assigned assignments r.run_id) (keep (λ r. r.run_id == run_id) rows))
unfolding keep
splits-Repeats [] assignments run_id = tt
splits-Repeats (r ∷ rest) assignments run_id = elim (Bool-cases (r.run_id == run_id)) [
  | inl same ↦ rw same (
    ap (assigned assignments) (str_eq→eq r.run_id run_id same),
    splits-Repeats rest assignments run_id,
  )
  | inr other ↦ rw other (splits-Repeats rest assignments run_id)
]

abbrev with_run : List AuditRow → String → List AuditRow
with_run rows id = keep (λ r. r.run_id == id) rows

All-imp :
    {A : Type 0} {P Q : A → Type 0} → ((x : A) → P x → Q x) → (xs : List A) → All P xs → All Q xs
All-imp f [] all = tt
All-imp f (x ∷ xs) (p, all) = (f x p, All-imp f xs all)

All-distinct : (P : String → Type 0) (xs : List String) → All P xs → All P (distinct xs)
unfolding distinct
All-distinct P [] all = tt
All-distinct P (x ∷ xs) (p, all) = elim (Bool-cases (contains (distinct xs) x)) [
  | inl there ↦ rw there (All-distinct P xs all)
  | inr fresh ↦ rw fresh (p, All-distinct P xs all)
]

keep-none : {A : Type 0} → (p : A → Bool) (xs : List A) → All (λ x. p x ≡ false) xs → keep p xs ≡ []
unfolding keep
keep-none p [] all = refl
keep-none p (x ∷ xs) (no_x, all) = rw (no_x, keep-none p xs all) refl

with_run-more :
    (r : AuditRow) (rows : List AuditRow) (id : String)
    → is_empty (with_run rows id) ≡ false
    → is_empty (with_run (r ∷ rows) id) ≡ false
unfolding keep
with_run-more r rows id h = ground arith

each_run_has_rows :
    (rows : List AuditRow)
    → All (λ id. is_empty (with_run rows id) ≡ false) (map (λ r. r.run_id) rows)
unfolding keep
each_run_has_rows [] = tt
each_run_has_rows (r ∷ rows) = (
  rw (eq_refl r.run_id) refl,
  All-imp (with_run-more r rows) (map (λ q. q.run_id) rows) (each_run_has_rows rows),
)

is_empty-map : {A B : Type 0} → (f : A → B) (xs : List A) → is_empty (map f xs) ≡ is_empty xs
is_empty-map f [] = refl
is_empty-map f (x ∷ xs) = refl

one_split :
    (rows : List AuditRow) (assignments : Assignments) (id : String)
    → is_empty (with_run rows id) ≡ false
    → not (eqb (length (splits_of rows assignments id)) 1) ≡ false
unfolding splits_of
one_split rows assignments id h =
    let assigned_splits = map (λ r. assigned assignments r.run_id) (with_run rows id) in
    rw
      (length-Repeats (assigned assignments id) assigned_splits (splits-Repeats rows assignments id)
        (is_empty-map _ (with_run rows id) ∙ h))
      refl

-- The audit never reports a run in several splits: it looks the split up by the run identifier.
pub split_leaks-nil :
    (rows : List AuditRow) (assignments : Assignments) → split_leaks rows assignments ≡ []
unfolding split_leaks
split_leaks-nil rows assignments =
    rw
      (keep-none (λ id. not (eqb (length (splits_of rows assignments id)) 1))
        (distinct (map (λ r. r.run_id) rows))
        (All-distinct _ (map (λ r. r.run_id) rows) (
          All-imp (one_split rows assignments) (map (λ r. r.run_id) rows)
            (each_run_has_rows rows))))
      refl

keep-empty :
    {A : Type 0}
    → (p : A → Bool) (xs : List A) → is_empty (keep p xs) ≡ true
    → All (λ x. p x ≡ false) xs
unfolding keep
keep-empty p [] h = tt
keep-empty p (x ∷ xs) h = elim (Bool-cases (p x)) [
  | inl passes ↦ absurd (ground arith)
  | inr fails ↦ (fails, keep-empty p xs (rw fails at h))
]

-- An audit that passes has no forbidden column, one set of window lengths for all labels, and for each
-- row a session that is not ambiguous.
pub audit_leakage-passed :
    (lower : String → String) (rows : List AuditRow) (columns : List String)
    (assignments : Assignments) (audit : Audit)
    → audit_leakage lower rows columns assignments ≡ ok audit
    → audit.passed ≡ true
    → All (λ c. is_forbidden lower c ≡ false) columns
      × (duration_exclusive rows ≡ false)
      × All (λ r. is_ambiguous r ≡ false) rows
unfolding audit_leakage
audit_leakage-passed lower rows columns assignments audit h passed =
    let (_, h1) =
      raise_if-then (some_of (λ r. not (is_some (lookup r.run_id assignments))) rows) _ _ h in
    let forbidden = keep (is_forbidden lower) columns in
    let runs = map (λ r. r.run_id) (keep is_ambiguous rows) in
    let all_four : (is_empty forbidden
          && (is_empty (split_leaks rows assignments)
              && (not (duration_exclusive rows) && is_empty (sorted (distinct runs)))))
        ≡ true =
      cc (h1, passed) in
    let (a, b1) = and-true _ _ all_four in
    let (_, b2) = and-true _ _ b1 in
    let (c, d) = and-true _ _ b2 in
    (
      keep-empty (is_forbidden lower) columns a,
      ground arith,
      keep-empty is_ambiguous rows (
          sym (is_empty-map (λ r. r.run_id) (keep is_ambiguous rows))
          ∙ (sym (is_empty-distinct runs) ∙ (sym (is_empty-sorted (distinct runs)) ∙ d))),
    )
