-- ===== src/Evaluation/Groups.antt =====
-- `RunGroup`, `_run_groups` and `_counts` of src/commguard/evaluation/splits.py.
-- The values that a message quotes are left out of it.
use comm_guard.Prelude.{
  ℕ, String, Bool, false, not, ◌&&◌, ◌||◌, Option, none, some, List, [], ◌∷◌, map, ◌==◌, is_empty,
  length, keep, sorted, distinct, get_or, lookup, insert, non_empty, if◌then◌else◌, value_error,
  Result, ok, ◌>>=◌, ◌>>◌, raise_if,
}

-- A feature row; `none` is a key that is missing or, for the last three, falsy.
pub record Row : Type 0 where
  pub run_id : Option String
  pub legacy_grouping_ambiguous : Bool
  pub experiment_session_id : Option String
  pub target_label : Option String
  pub workload_family : Option String
  pub workload_config_id : Option String
  pub plan_id : Option String

pub record RunGroup : Type 0 where
  pub run_id : String
  pub experiment_session_id : String
  pub target_label : String
  pub workload_family : String
  pub workload_config_id : String

abbrev pub Groups : Type 0
Groups = List (String × RunGroup)

-- `run_id` to split
abbrev pub Assignments : Type 0
Assignments = List (String × String)

-- `SPLITS`
abbrev pub splits : List String
splits = "train" ∷ "validation" ∷ "test" ∷ []

-- `getattr(group, field)`
pub data Field : Type 0 where
  run session label family config : Field

unfoldable pub field_of : Field → RunGroup → String
field_of run g = g.run_id
field_of session g = g.experiment_session_id
field_of label g = g.target_label
field_of family g = g.workload_family
field_of config g = g.workload_config_id

-- `a or b or ""`
abbrev either_text : Option String → Option String → String
either_text none b = get_or "" b
either_text (some s) b = if non_empty s then s else get_or "" b

unfoldable pub same_group : RunGroup → RunGroup → Bool
same_group a b =
    a.run_id == b.run_id
    && (a.experiment_session_id == b.experiment_session_id
        && (a.target_label == b.target_label
            && (a.workload_family == b.workload_family
                && a.workload_config_id == b.workload_config_id)))

-- `previous is not None and previous != candidate`
abbrev pub conflicts : Option RunGroup → RunGroup → Bool
conflicts none candidate = false
conflicts (some previous) candidate = not (same_group previous candidate)

-- The candidate of one row, with the checks on the row alone.
unfoldable pub candidate_of : Row → Result RunGroup
candidate_of row = do
  let run_id = get_or "" row.run_id
  raise_if (not (non_empty run_id)) (value_error "feature row is missing run_id")
  raise_if row.legacy_grouping_ambiguous (value_error "a true experiment_session_id is required")
  let session = get_or "" row.experiment_session_id
  raise_if (not (non_empty session)) (value_error "run has no true experiment_session_id")
  let label = get_or "" row.target_label
  let family = get_or "" row.workload_family
  let config = either_text row.workload_config_id row.plan_id
  raise_if (not (non_empty label) || not (non_empty family))
      (value_error "run is missing target/family metadata")
  raise_if (not (non_empty config)) (value_error "run is missing workload configuration identity")
  ok (record {
    run_id = run_id;
    experiment_session_id = session;
    target_label = label;
    workload_family = family;
    workload_config_id = config;
  })

-- The loop over the rows.
unfoldable pub add_rows : Groups → List Row → Result Groups
unfolding candidate_of same_group lookup insert
add_rows groups [] = ok groups
add_rows groups (row ∷ rest) = do
  candidate ← candidate_of row
  raise_if (conflicts (lookup candidate.run_id groups) candidate)
      (value_error "run spans multiple values")
  add_rows (insert candidate.run_id candidate groups) rest

-- `_run_groups`
unfoldable pub run_groups : List Row → Result Groups
unfolding add_rows
run_groups rows = do
  groups ← add_rows [] rows
  raise_if (is_empty groups) (value_error "cannot split an empty feature collection")
  ok groups

-- The groups that `assignments` puts in one split.
unfoldable pub members : Groups → Assignments → String → List RunGroup
members [] assignments split = []
members ((run_id, g) ∷ rest) assignments split =
    let others = members rest assignments split in
    if get_or "" (lookup run_id assignments) == split then g ∷ others else others

-- How often each value of a field occurs, by value.
unfoldable pub tally : Field → List RunGroup → List (String × ℕ)
tally f groups =
    map (λ value. (value, length (keep (λ g. field_of f g == value) groups)))
      (sorted (distinct (map (field_of f) groups)))

-- `_counts`
unfoldable pub counts : Groups → Assignments → Field → List (String × List (String × ℕ))
unfolding members tally
counts groups assignments f =
    map (λ split. (split, tally f (members groups assignments split))) splits
