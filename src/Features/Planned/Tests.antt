-- ===== src/Features/Planned/Tests.antt =====
-- Runs of the extraction of planned runs on a small corpus.
use comm_guard.Prelude.{
  ◌≡◌, refl, String, true, false, Option, none, some, List, [], ◌∷◌, pos, every, some_of, contains,
  arith, validation_error, Result, ok, err, keep,
}
use comm_guard.Corpus.{PlannedRun, CorpusManifest, allows, planned_for_run}
use comm_guard.Features.Alignment.{sort_by, align_samples_by_timestamp}
use comm_guard.Features.Coverage.{validate_record}
use comm_guard.Features.Examples.{Sample, gpu, time, samples_seen}
use comm_guard.Features.Extraction.{extract_run_features}
use comm_guard.Features.Planned.{RunRecord, ManifestFile, TelemetryFile, Policy, record_of}
use comm_guard.Features.Planned.Cascade.{Outcome, extract_samples, extract_planned_run}
use comm_guard.Features.Planned.Valid.{IsContext}
use comm_guard.Features.Planned.Measuring.{IsReported}
use comm_guard.Features.Planned.Reported.{extract_planned_run-IsReported}
use comm_guard.Features.Planned.Disjoint.{extract_samples-disjoint}

abbrev plan : PlannedRun
plan = record {
  plan_id = "p0";
  workload_family = "ddp";
  target_label = "training";
  designation = "benign";
  accepted_run_id = some "r0";
  random_seed = pos 1;
  workload_config_id = none;
}

abbrev corpus : CorpusManifest
corpus = record {
  corpus_id = "corpus";
  collection_id = "collection";
  experiment_session_id = "session";
  node_id = "node";
  planned_runs = plan ∷ [];
  accepted_run_ids = "r0" ∷ [];
  source_commit = "c0";
  input_archive_sha256 = none;
  random_seed = pos 1;
  calibration_reference = none;
  schema_version = "2.0";
  artifact_kind = "corpus_manifest";
}

abbrev policy : Policy
policy = record {
  windows = 10 ∷ [];
  stride_fraction = pos 500000;
  exclude_startup = true;
  tolerance = pos 1;
  selected_designations = "benign" ∷ [];
  key_of = λ w. "10";
  mentions_version = λ s. false;
}

abbrev manifest : RunRecord
manifest = record {
  corpus_id = some "corpus";
  exit_status = "completed";
  participation_valid = true;
  workload_family = "ddp";
  workload_label = "training";
  warmup = 0;
  measurement_start = some 2;
  measurement_end = some 20;
}

context : IsContext corpus plan policy
unfolding every some_of
context = record { named = refl; requested = refl; positive = refl; tolerant = refl }

-- The first device stops before the second one starts.
abbrev apart : List Sample
apart = (0, 1) ∷ (0, 4) ∷ (1, 6) ∷ (1, 9) ∷ []

abbrev status_of : Result Outcome → String × Option String
status_of (err e) = ("raised", none)
status_of (ok o) = (o.1.status, o.1.reason_code)

statuses :
    (status_of (
        extract_planned_run gpu time policy corpus plan
          (ManifestFile.loaded manifest)
          (TelemetryFile.samples samples_seen))
      ≡ ("included", none))
    × (status_of (
          extract_planned_run gpu time policy corpus plan
            (ManifestFile.loaded manifest)
            (TelemetryFile.samples apart))
        ≡ ("excluded", some "no_common_interval"))
    × (status_of (
          extract_planned_run gpu time policy corpus plan ManifestFile.missing TelemetryFile.absent)
        ≡ ("excluded", some "incomplete_run"))
unfolding extract_planned_run record_of contains allows planned_for_run some_of sort_by keep
    align_samples_by_timestamp extract_run_features
statuses = (refl, refl, refl)

extract_planned_run-IsReported_example :
    (o : Outcome) × (extract_planned_run gpu time policy corpus plan
        (ManifestFile.loaded manifest)
        (TelemetryFile.samples samples_seen)
      ≡ ok o)
    × IsReported policy o
extract_planned_run-IsReported_example =
    extract_planned_run-IsReported gpu time policy corpus plan context
      (ManifestFile.loaded manifest) (TelemetryFile.samples samples_seen) tt

extract_samples-disjoint_example :
    (o : Outcome) × (extract_samples gpu time policy corpus plan manifest apart ≡ ok o)
    × (o.1.reason_code ≡ some "no_common_interval")
    × (validate_record policy.key_of o.1
        ≡ err (validation_error "coverage: common interval is reversed"))
unfolding some_of sort_by keep
extract_samples-disjoint_example =
    extract_samples-disjoint gpu time policy corpus plan context manifest apart (0, 1) (1, 6)
      ((0, 4) ∷ []) ((1, 9) ∷ []) refl refl refl (omega arith)
