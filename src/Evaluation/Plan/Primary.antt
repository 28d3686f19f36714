-- ===== src/Evaluation/Plan/Primary.antt =====
-- What `make_split_plan` guarantees of a primary plan.
use comm_guard.Prelude.{String, ◌≡◌, true, List, same_set, keys, All}
use comm_guard.Evaluation.Groups.{Groups, Assignments, splits}
use comm_guard.Evaluation.Finalize.{SplitPlan, sorted_assignments}
use comm_guard.Evaluation.Finalize.Sound.{IsCovered}

-- Assignments of the runs of `groups` that make a primary plan.
pub record IsPrimary (groups : Groups) (required : List String) (plan : SplitPlan) : Type 0 where
  pub chosen : Assignments
  pub sorts : plan.assignments ≡ sorted_assignments chosen
  pub exact : same_set (keys chosen) (keys groups) ≡ true
  pub covered : All (IsCovered groups chosen required) splits
