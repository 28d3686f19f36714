-- ===== src/Evaluation/Audit.antt =====
-- `audit_leakage` of src/commguard/evaluation/splits.py.
-- Window lengths are whole microseconds, and a row has its `run_id` and its `target_label`.
pub mod Runs
use package.text.Mathlib.Text.{find?}
use comm_guard.Prelude.{
  ℕ, String, Bool, true, false, not, ◌&&◌, ◌||◌, Option, none, some, List, [], ◌∷◌, map, ◌==◌, eqb,
  is_some, is_empty, length, keep, some_of, every, sorted, distinct, get_or, lookup, non_empty,
  Exception, key_error, Result, ok, err, ◌>>=◌, ◌>>◌, raise_if,
}
use comm_guard.Evaluation.Groups.{Assignments}

pub record AuditRow : Type 0 where
  pub run_id : String
  pub target_label : String
  pub window : ℕ
  pub legacy_grouping_ambiguous : Bool
  pub experiment_session_id : Option String

pub record Audit : Type 0 where
  pub passed : Bool
  pub forbidden_feature_columns : List String
  pub run_split_leaks : List (String × List String)
  pub class_specific_window_lengths : Bool
  pub ambiguous_or_missing_session_runs : List String

abbrev forbidden_tokens : List String
forbidden_tokens =
    "run_id" ∷ "timestamp" ∷ "path" ∷ "filename" ∷ "label" ∷ "family" ∷ "session" ∷ []

-- `any(token in column.lower() for token in forbidden_tokens)`
unfoldable pub is_forbidden : (String → String) → String → Bool
is_forbidden lower column = some_of (λ token. is_some (find? (lower column) token)) forbidden_tokens

-- `str(assignments[run_id])` of a key that is there
abbrev pub assigned : Assignments → String → String
assigned assignments run_id = get_or "" (lookup run_id assignments)

-- `grouped[run_id]`, a set
unfoldable pub splits_of : List AuditRow → Assignments → String → List String
unfolding keep
splits_of rows assignments run_id =
    distinct (map (λ r. assigned assignments r.run_id) (keep (λ r. r.run_id == run_id) rows))

-- `split_leaks`
unfoldable pub split_leaks : List AuditRow → Assignments → List (String × List String)
unfolding splits_of
split_leaks rows assignments =
    map (λ run_id. (run_id, sorted (splits_of rows assignments run_id)))
      (keep (λ run_id. not (eqb (length (splits_of rows assignments run_id)) 1))
        (distinct (map (λ r. r.run_id) rows)))

abbrev windows_of : List AuditRow → String → List ℕ
windows_of rows name = map (λ r. r.window) (keep (λ r. r.target_label == name) rows)

abbrev within : List ℕ → List ℕ → Bool
within xs ys = every (λ x. some_of (eqb x) ys) xs

-- More than one set of window lengths among the labels.
unfoldable pub duration_exclusive : List AuditRow → Bool
duration_exclusive rows =
    some_of
      (λ r.
        some_of
          (λ q. not (
            within (windows_of rows r.target_label) (windows_of rows q.target_label)
            && within (windows_of rows q.target_label) (windows_of rows r.target_label)))
          rows)
      rows

-- `legacy_grouping_ambiguous is True or not experiment_session_id`
abbrev pub is_ambiguous : AuditRow → Bool
is_ambiguous r = r.legacy_grouping_ambiguous || not (non_empty (get_or "" r.experiment_session_id))

-- `audit_leakage`
unfoldable pub audit_leakage :
    (String → String) → List AuditRow → List String → Assignments → Result Audit
unfolding is_forbidden split_leaks duration_exclusive
audit_leakage lower rows columns assignments = do
  raise_if (some_of (λ r. not (is_some (lookup r.run_id assignments))) rows) (key_error "run_id")
  let forbidden = keep (is_forbidden lower) columns
  let leaks = split_leaks rows assignments
  let exclusive = duration_exclusive rows
  let ambiguous = sorted (distinct (map (λ r. r.run_id) (keep is_ambiguous rows)))
  ok (record {
    passed = is_empty forbidden && (is_empty leaks && (not exclusive && is_empty ambiguous));
    forbidden_feature_columns = forbidden;
    run_split_leaks = leaks;
    class_specific_window_lengths = exclusive;
    ambiguous_or_missing_session_runs = ambiguous;
  })
