-- ===== src/Adversarial/Table.antt =====
-- `ADVERSARIAL_STRATEGIES` and `strategy_for_config` of src/commguard/adversarial.py. The bounds 0.05, 0.1
-- and 0.9 are the floats nearest to these numbers.
use comm_guard.Prelude.{
  ◌*◌, ◌^◌, String, true, false, Option, none, some, List, [], ◌∷◌, pos, lookup, Result, ok, err,
  ◌>>=◌, ◌>>◌, value_error,
}
use comm_guard.Central.Json.{text, Fields, get_default}
use comm_guard.Central.Runtime.{str}
use comm_guard.Central.Messages.{Python}
use comm_guard.Central.Samples.{float_unit}
use comm_guard.Adversarial.{AdversarialStrategy, FloatOfText, whole, validate_config}

unfoldable gradient_accumulation : AdversarialStrategy
unfolding float_unit
gradient_accumulation = record {
  strategy_id = "gradient_accumulation";
  family = "gradient_accumulation";
  target_label = "training";
  worker_mode = "ddp_train";
  research_purpose = "Test a frozen detector against less frequent gradient synchronization.";
  synchronization_semantics = "One DDP synchronization per optimizer step after local microsteps.";
  parameter_bounds = ("gradient_accumulation", whole 2 16) ∷ [];
  claim_boundary = "A bounded DDP variant; no detector-evasion result exists until executed.";
  enabled_by_default = false;
  requires_human_approval = true;
}

unfoldable pub periodic_local_sgd : AdversarialStrategy
unfolding float_unit
periodic_local_sgd = record {
  strategy_id = "periodic_local_sgd";
  family = "periodic_local_sgd";
  target_label = "training";
  worker_mode = "sparse_sync_training";
  research_purpose = "Measure detector sensitivity to periodic model averaging.";
  synchronization_semantics = "Average model parameters after a fixed number of local steps.";
  parameter_bounds = ("local_steps", whole 1 100) ∷ [];
  claim_boundary = "Single-host two-rank local SGD, not decentralized multi-node validation.";
  enabled_by_default = false;
  requires_human_approval = true;
}

unfoldable diloco_inspired : AdversarialStrategy
unfolding float_unit
diloco_inspired = record {
  strategy_id = "diloco_inspired";
  family = "diloco_inspired";
  target_label = "training";
  worker_mode = "sparse_sync_training";
  research_purpose = "Probe sparse outer synchronization in a T4-sized defensive experiment.";
  synchronization_semantics = "Average parameters after bounded inner training steps.";
  parameter_bounds = ("inner_steps", whole 2 100) ∷ [];
  claim_boundary = "DiLoCo-inspired parameter averaging only; not a faithful DiLoCo reproduction.";
  enabled_by_default = false;
  requires_human_approval = true;
}

unfoldable segmented_runs : AdversarialStrategy
unfolding float_unit
segmented_runs = record {
  strategy_id = "segmented_runs";
  family = "segmented_runs";
  target_label = "training";
  worker_mode = "ddp_train";
  research_purpose = "Test whether bounded interruption gaps alter communication windows.";
  synchronization_semantics = "Ordinary DDP in separately launched bounded process segments.";
  parameter_bounds =
      ("segment_seconds", whole 5 20)
      ∷ ("restart_gap_seconds", whole 1 5)
      ∷ ("segment_count", whole 2 8)
      ∷ [];
  claim_boundary =
      "Local subprocess restarts only; not provider scheduler or checkpoint validation.";
  enabled_by_default = false;
  requires_human_approval = true;
}

unfoldable idle_padding : AdversarialStrategy
unfolding float_unit
idle_padding = record {
  strategy_id = "idle_padding";
  family = "idle_padding";
  target_label = "training";
  worker_mode = "ddp_train";
  research_purpose = "Measure the cost and detector response of bounded burst/idle shaping.";
  synchronization_semantics = "Ordinary DDP synchronization with deterministic idle padding.";
  parameter_bounds =
      (
        "idle_padding_s",
        record {
          minimum = pos (3602879701896397 * 2 ^ 1018);
          maximum = pos (2 * float_unit);
          integral = false;
        },
      )
      ∷ [];
  claim_boundary = "Controlled timing perturbation only; not monitoring tampering.";
  enabled_by_default = false;
  requires_human_approval = true;
}

unfoldable randomized_synchronization : AdversarialStrategy
unfolding float_unit
randomized_synchronization = record {
  strategy_id = "randomized_synchronization";
  family = "randomized_synchronization";
  target_label = "training";
  worker_mode = "sparse_sync_training";
  research_purpose = "Test a deterministic jittered parameter-averaging schedule.";
  synchronization_semantics = "Seeded per-step synchronization decisions plus final agreement.";
  parameter_bounds =
      (
        "sync_probability",
        record {
          minimum = pos (3602879701896397 * 2 ^ 1019);
          maximum = pos (8106479329266893 * 2 ^ 1021);
          integral = false;
        },
      )
      ∷ [];
  claim_boundary = "Seeded bounded schedule, not an adaptive attack on a live detector.";
  enabled_by_default = false;
  requires_human_approval = true;
}

unfoldable mixed_training_inference : AdversarialStrategy
unfolding float_unit
mixed_training_inference = record {
  strategy_id = "mixed_training_inference";
  family = "mixed_training_inference";
  target_label = "training";
  worker_mode = "ddp_train";
  research_purpose = "Measure a frozen detector on alternating training and inference steps.";
  synchronization_semantics = "DDP training steps interleaved with forward-only phases.";
  parameter_bounds = ("inference_every", whole 2 8) ∷ [];
  claim_boundary = "Synthetic phase mixture; no production workload representativeness claim.";
  enabled_by_default = false;
  requires_human_approval = true;
}

unfoldable synthetic_communication_decoy : AdversarialStrategy
unfolding float_unit
synthetic_communication_decoy = record {
  strategy_id = "synthetic_communication_decoy";
  family = "synthetic_communication_decoy";
  target_label = "control";
  worker_mode = "synthetic_communication_decoy";
  research_purpose = "Measure false positives from bounded non-training collective shapes.";
  synchronization_semantics = "Seeded, bounded all-reduce bursts over synthetic tensors.";
  parameter_bounds = ("payload_mib", whole 1 16) ∷ ("burst_collectives", whole 1 8) ∷ [];
  claim_boundary = "Synthetic hard negative only; no bypass or telemetry manipulation.";
  enabled_by_default = false;
  requires_human_approval = true;
}

-- `ADVERSARIAL_STRATEGIES`
unfoldable pub strategies : List (String × AdversarialStrategy)
unfolding gradient_accumulation periodic_local_sgd diloco_inspired segmented_runs idle_padding
    randomized_synchronization mixed_training_inference synthetic_communication_decoy
strategies =
    ("gradient_accumulation", gradient_accumulation)
    ∷ ("periodic_local_sgd", periodic_local_sgd)
    ∷ ("diloco_inspired", diloco_inspired)
    ∷ ("segmented_runs", segmented_runs)
    ∷ ("idle_padding", idle_padding)
    ∷ ("randomized_synchronization", randomized_synchronization)
    ∷ ("mixed_training_inference", mixed_training_inference)
    ∷ ("synthetic_communication_decoy", synthetic_communication_decoy)
    ∷ []

abbrev pub known_strategy : Option AdversarialStrategy → Result AdversarialStrategy
known_strategy none = err (value_error "unknown adversarial strategy")
known_strategy (some s) = ok s

-- `strategy_for_config`
unfoldable pub strategy_for_config : Python → FloatOfText → Fields → Result AdversarialStrategy
strategy_for_config rt read config = do
  strategy ←
      known_strategy (lookup (str rt (get_default config "strategy_id" (text ""))) strategies)
  validate_config read strategy config
  ok strategy
