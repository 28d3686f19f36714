-- ===== src/Participation.antt =====
-- `validate_rank_results` of src/commguard/distributed/participation.py.
pub mod Ranks
pub mod Tests
use comm_guard.Prelude.{
  ℕ, String, Bool, true, false, not, ◌&&◌, ◌||◌, Option, none, some, List, [], ◌∷◌, map, ◌==◌, eqb,
  ℤ, pos, eq_z, length, every, some_of, contains, sorted, distinct, Exception, validation_error,
  Result, ok, err, ◌>>=◌, ◌>>◌, raise_if,
}

-- The result of one rank. A number stands for a value that equals it, and `none` for a missing key or a
-- value that equals no integer; `gpu_uuid` is the stripped text.
pub record RankResult : Type 0 where
  pub rank : Option ℤ
  pub local_rank : Option ℤ
  pub world_size : Option ℤ
  pub backend : String
  pub all_reduce_value : Option ℤ
  pub completed : Bool
  pub gpu_uuid : String

pub record Participants : Type 0 where
  pub gpu_uuids : List String

-- `value == n`
abbrev pub is_number : ℤ → Option ℤ → Bool
is_number n none = false
is_number n (some k) = eq_z k n

-- `set(values) == {0, 1}`
abbrev pub are_zero_one : List (Option ℤ) → Bool
are_zero_one values =
    every (λ v. is_number (pos 0) v || is_number (pos 1) v) values
    && (some_of (is_number (pos 0)) values && some_of (is_number (pos 1)) values)

-- `validate_rank_results`
unfoldable pub validate_rank_results : List RankResult → Result Participants
unfolding every some_of
validate_rank_results records = do
  raise_if (not (eqb (length records) 2)) (validation_error "expected two rank results")
  raise_if (not (are_zero_one (map (λ r. r.rank) records)))
      (validation_error "rank results must contain ranks 0 and 1 exactly once")
  raise_if (not (are_zero_one (map (λ r. r.local_rank) records)))
      (validation_error "local rank results must contain 0 and 1 exactly once")
  raise_if (some_of (λ r. not (is_number (pos 2) r.world_size)) records)
      (validation_error "every rank must report WORLD_SIZE=2")
  raise_if (some_of (λ r. not (r.backend == "nccl")) records)
      (validation_error "every rank must report the NCCL backend")
  raise_if (some_of (λ r. not (is_number (pos 3) r.all_reduce_value)) records)
      (validation_error "every rank must report the expected all_reduce value 3")
  raise_if (some_of (λ r. not r.completed) records)
      (validation_error "every rank must report successful barrier completion")
  let uuids = distinct (map (λ r. r.gpu_uuid) records)
  raise_if (contains uuids "" || not (eqb (length uuids) 2))
      (validation_error "rank results must contain two distinct GPU UUIDs")
  ok (record { gpu_uuids = sorted uuids })
