-- ===== src/Evaluation/Folds/Partition.antt =====
-- Each fold splits the groups, and keeps its two lists of runs apart.
use comm_guard.Prelude.{String, ◌≡◌, false, not, ◌&&◌, List, contains, All}
use comm_guard.Evaluation.Groups.{Groups}
use comm_guard.Evaluation.Folds.{CrossValidationFold}

-- A group is trained on exactly if it is one of `ids` and not tested on; no run is in both lists.
pub record IsFold (ids : List String) (f : CrossValidationFold) : Type 0 where
  pub trained_or_tested :
      (id : String)
      → contains f.train_group_ids id ≡ (contains ids id && not (contains f.test_group_ids id))
  pub apart : All (λ r. contains f.train_run_ids r ≡ false) f.test_run_ids
