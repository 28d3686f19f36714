-- ===== src/Participation/Tests.antt =====
-- Tests of the rank evidence.
use comm_guard.Prelude.{
  ◌≡◌, refl, true, some, List, [], ◌∷◌, pos, every, some_of, contains, sorted, distinct, ok,
}
use comm_guard.Participation.{RankResult, Participants, validate_rank_results}

abbrev second : RankResult
second = record {
  rank = some (pos 1);
  local_rank = some (pos 1);
  world_size = some (pos 2);
  backend = "nccl";
  all_reduce_value = some (pos 3);
  completed = true;
  gpu_uuid = "GPU-1";
}

abbrev results : List RankResult
results =
    second
    ∷ record second { rank = some (pos 0); local_rank = some (pos 0); gpu_uuid = "GPU-0" }
    ∷ []

abbrev participants : Participants
participants = record { gpu_uuids = "GPU-0" ∷ "GPU-1" ∷ [] }

validate_rank_results-results : validate_rank_results results ≡ ok participants
unfolding validate_rank_results every some_of contains sorted distinct
validate_rank_results-results = refl
