-- ===== src/Schemas/Migration/Legacy.antt =====
-- A legacy record after its migration, and what the split plans make of it.
use comm_guard.Prelude.{
  String, ◌≡◌, refl, ◌∙◌, Bool, true, false, not, List, [], ◌∷◌, map, arith, ◌==◌, str_eq→eq,
  eq_refl, Bool-cases, inl, inr, contains, if◌then◌else◌, non_empty, get_or, All, lookup, ok,
  >>=-eq-ok, raise_if-then, insert,
}
use comm_guard.Central.Json.{Value, null, bool, text, Fields, end, field, get}
use comm_guard.Central.Messages.{Python}
use comm_guard.Schemas.Values.{equals_text, legacy_version, current_version}
use comm_guard.Schemas.Migration.{
  run_keys, interval_keys, row_keys, report_keys, set_key, clear, is_legacy, migrate_kind, migrate,
}
use comm_guard.Evaluation.Groups.{RunGroup, Groups, candidate_of, conflicts, add_rows, run_groups}
use comm_guard.Evaluation.Rows.{row_from_dict}

eq_swap : (a b : String) → a == b ≡ false → b == a ≡ false
eq_swap a b h = elim (Bool-cases (b == a)) [
  | inl same ↦ let e : b ≡ a = str_eq→eq b a same in cc (h, e, eq_refl a)
  | inr other ↦ other
]

-- Writing a key changes that key alone.
get-set_key :
    (k j : String) (v : Value) (fs : Fields)
    → get (set_key k v fs) j ≡ (if k == j then v else get fs j)
unfolding set_key get
get-set_key k j v end = refl
get-set_key k j v (field i w rest) = elim (Bool-cases (i == k)) [
  | inl same ↦ let e : i ≡ k = str_eq→eq i k same in rw (e, eq_refl k) (ground arith)
  | inr other ↦ elim (Bool-cases (i == j)) [
    | inl here ↦
        let e : i ≡ j = str_eq→eq i j here in
        let apart = eq_swap i k other in rw (other, ← e, eq_refl i, apart) refl
    | inr there ↦ rw (other, there, get-set_key k j v rest) refl
  ]
]

set_other :
    (k j : String) (v : Value) (fs : Fields) → k == j ≡ false → get (set_key k v fs) j ≡ get fs j
set_other k j v fs h = get-set_key k j v fs ∙ rw h refl

-- Clearing keys leaves another key as it is.
get-clear :
    (names : List String) (j : String) (fs : Fields)
    → contains names j ≡ false
    → get (clear names fs) j ≡ get fs j
unfolding clear contains
get-clear [] j fs h = refl
get-clear (name ∷ rest) j fs h =
    get-clear rest j (set_key name null fs) (ground arith)
    ∙ set_other name j null fs (eq_swap j name (ground arith))

if-get :
    (b : Bool) (j : String) {v : Value} (x y : Fields)
    → get x j ≡ v
    → get y j ≡ v
    → get (if b then x else y) j ≡ v
if-get true j x y h g = h
if-get false j x y h g = g

-- A key that the migration of no kind writes.
module _ (j : String) (free_run : contains run_keys j ≡ false)
    (free_interval : contains interval_keys j ≡ false) (free_row : contains row_keys j ≡ false)
    (free_report : contains report_keys j ≡ false) (free_seed : "random_seed" == j ≡ false)
    (free_environment : "environment_fingerprint" == j ≡ false) where
  get-migrate_kind : (fs : Fields) → get (migrate_kind fs) j ≡ get fs j
  unfolding migrate_kind
  get-migrate_kind fs =
      let seeded = set_key "random_seed" (get fs "seed") (clear run_keys fs) in
      let named = set_key "environment_fingerprint" (get fs "session_fingerprint") fs in
      let run : get (clear interval_keys seeded) j ≡ get fs j =
        get-clear interval_keys j seeded free_interval
        ∙ (set_other "random_seed" j (get fs "seed") (clear run_keys fs) free_seed
            ∙ get-clear run_keys j fs free_run) in
      let set : get named j ≡ get fs j =
        set_other "environment_fingerprint" j (get fs "session_fingerprint") fs free_environment in
      let row : get (clear row_keys named) j ≡ get fs j =
        get-clear row_keys j named free_row ∙ set in
      let report : get (clear report_keys named) j ≡ get fs j =
        get-clear report_keys j named free_report ∙ set in
      if-get (equals_text "run_manifest" (get fs "artifact_kind")) j _ _ run (
        if-get (equals_text "feature_row" (get fs "artifact_kind")) j _ _ row
          (if-get (equals_text "environment_report" (get fs "artifact_kind")) j _ _ report refl))

-- A legacy record becomes one of the current schema that is marked ambiguous.
migrate-legacy :
    (fs : Fields)
    → is_legacy fs ≡ true
    → (get (migrate fs) "schema_version" ≡ text current_version)
      × (get (migrate fs) "legacy_grouping_ambiguous" ≡ bool true)
unfolding migrate contains
migrate-legacy fs h =
    let source = set_key "source_schema_version" (text legacy_version) fs in
    let versioned = set_key "schema_version" (text current_version) source in
    let marked = set_key "legacy_grouping_ambiguous" (bool true) versioned in
    rw h (
      get-migrate_kind "schema_version" refl refl refl refl refl refl marked
          ∙ (get-set_key "legacy_grouping_ambiguous" "schema_version" (bool true) versioned
              ∙ get-set_key "schema_version" "schema_version" (text current_version) source),
      get-migrate_kind "legacy_grouping_ambiguous" refl refl refl refl refl refl marked
          ∙ get-set_key "legacy_grouping_ambiguous" "legacy_grouping_ambiguous" (bool true)
              versioned,
    )

-- Migrating a record twice changes nothing more.
pub migrate_twice : (fs : Fields) → migrate (migrate fs) ≡ migrate fs
unfolding migrate
migrate_twice fs = elim (Bool-cases (is_legacy fs)) [
  | inl old ↦
      let (version, _) = migrate-legacy fs old in
      let new : is_legacy (migrate fs) ≡ false = rw version refl in rw (migrate, new) refl
  | inr new ↦ rw (migrate, new, new) refl
]

-- A migrated legacy row is refused by the grouping.
candidate_of-legacy :
    (rt : Python) (fs : Fields) (g : RunGroup)
    → candidate_of (row_from_dict rt (migrate fs)) ≡ ok g
    → is_legacy fs ≡ false
unfolding candidate_of row_from_dict
candidate_of-legacy rt fs g h =
    let row = row_from_dict rt (migrate fs) in
    let (_, h1) = raise_if-then (not (non_empty (get_or "" row.run_id))) _ _ h in
    let (unmarked, _) = raise_if-then row.legacy_grouping_ambiguous _ _ h1 in
    elim (Bool-cases (is_legacy fs)) [
      | inl old ↦ let (_, marked) = migrate-legacy fs old in cc (rw marked at unmarked)
      | inr new ↦ new
    ]

rows-legacy :
    (rt : Python) (records : List Fields) (groups result : Groups)
    → add_rows groups (map (λ fs. row_from_dict rt (migrate fs)) records) ≡ ok result
    → All (λ fs. is_legacy fs ≡ false) records
unfolding add_rows
rows-legacy rt [] groups result h = tt
rows-legacy rt (fs ∷ rest) groups result h =
    let row = row_from_dict rt (migrate fs) in
    let (candidate, e, h1) = >>=-eq-ok (candidate_of row) _ h in
    let (_, h2) = raise_if-then (conflicts (lookup candidate.run_id groups) candidate) _ _ h1 in
    (
      candidate_of-legacy rt fs candidate e,
      rows-legacy rt rest (insert candidate.run_id candidate groups) result h2,
    )

-- If `_run_groups` accepts feature rows that were loaded with migration, none of them was a legacy row.
pub run_groups-legacy :
    (rt : Python) (records : List Fields) (groups : Groups)
    → run_groups (map (λ fs. row_from_dict rt (migrate fs)) records) ≡ ok groups
    → All (λ fs. is_legacy fs ≡ false) records
unfolding run_groups
run_groups-legacy rt records groups h =
    let rows = map (λ fs. row_from_dict rt (migrate fs)) records in
    let (found, e, _) = >>=-eq-ok (add_rows [] rows) _ h in rows-legacy rt records [] found e
