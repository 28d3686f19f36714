-- ===== src/Runs/Outcome.antt =====
-- The end of `launch_torchrun` of src/commguard/distributed/launcher.py, and what `_failure_category` and
-- `_write_run_evidence` of src/commguard/orchestrator.py record of a run.
use Prim.Native.String.{◌++◌ as append}
use comm_guard.Prelude.{
  ℕ, zero, suc, String, Bool, true, false, not, ◌&&◌, ◌||◌, Option, none, some, List, [], ◌∷◌, ◌++◌,
  map, ℤ, is_zero, if◌then◌else◌, non_empty, is_some,
}
use comm_guard.Runs.Launcher.{Participation}

pub record LaunchResult : Type 0 where
  pub return_code : ℤ
  pub timed_out : Bool
  pub participation_valid : Bool
  pub participation_problems : List String
  pub rank_exit_codes : List (String × ℕ)

-- A rank that had exited well is given the code of a timeout.
abbrev pub timeout_code : String × ℕ → String × ℕ
timeout_code (rank, zero) = (rank, 124)
timeout_code (rank, suc code) = (rank, suc code)

-- `launch_torchrun`, from the check of the participation on.
unfoldable pub launch_result : ℤ → Bool → Participation → LaunchResult
launch_result return_code true p = record {
  return_code = return_code;
  timed_out = true;
  participation_valid = false;
  participation_problems = p.problems ++ "torchrun exceeded the hard timeout" ∷ [];
  rank_exit_codes = map timeout_code p.rank_exit_codes;
}
launch_result return_code false p = record {
  return_code = return_code;
  timed_out = false;
  participation_valid = p.valid;
  participation_problems = p.problems;
  rank_exit_codes = p.rank_exit_codes;
}

-- `"; ".join(texts)`
unfoldable pub joined_problems : List String → String
joined_problems [] = ""
joined_problems (s ∷ []) = s
joined_problems (s ∷ t ∷ rest) = append s (append "; " (joined_problems (t ∷ rest)))

-- A failure category with its reason.
abbrev pub Failure : Type 0
Failure = Option (String × String)

-- `_failure_category`; `mentions` says whether the lowered output contains a text, and `decimal` is `str` of
-- an integer.
unfoldable pub failure_category :
    (decimal : ℤ → String) (mentions : String → Bool) → LaunchResult → Failure
failure_category decimal mentions r =
    if r.timed_out
    then some ("nccl_timeout_or_collective_mismatch", "hard timeout exceeded")
    else if mentions "out of memory"
    then some ("cuda_out_of_memory", "CUDA out of memory; configuration was not auto-tuned")
    else if mentions "rendezvous" || mentions "address already in use"
    then some ("rendezvous_or_port_failure", "distributed rendezvous failed")
    else if mentions "nccl"
    then some ("process_group_or_nccl_failure", "NCCL or process-group failure")
    else if not r.participation_valid
    then some ("rank_crash_or_asymmetric_exit", joined_problems r.participation_problems)
    else if not (is_zero r.return_code)
    then some ("workload_failure", append "torchrun exited " (decimal r.return_code))
    else none

-- `diagnostics.get("collector_error")`, where it is true
abbrev pub error_of : Option String → Option String
error_of none = none
error_of (some message) = if non_empty message then some message else none

-- The failure that the manifest of the run records.
unfoldable pub recorded_failure :
    (decimal : ℤ → String) (mentions : String → Bool) → LaunchResult → Option String → Failure
unfolding failure_category
recorded_failure decimal mentions r collector_error = elim (error_of collector_error) [
  | some message ↦ some ("telemetry_sampler_failure", message)
  | none ↦ failure_category decimal mentions r
]

-- `exit_status`
unfoldable pub exit_status_of : LaunchResult → Option String → String
exit_status_of r collector_error =
    if r.timed_out
    then "timeout"
    else if is_zero r.return_code
        && (r.participation_valid && not (is_some (error_of collector_error)))
    then "completed"
    else "failed"
