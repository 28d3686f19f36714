-- ===== src/Corpus/Tests.antt =====
-- Tests of the corpus manifest.
use comm_guard.Prelude.{
  ◌≡◌, refl, true, false, none, some, [], ◌∷◌, pos, contains, same_set, distinct, keep, All, ok,
}
use comm_guard.Corpus.{
  PlannedRun, CorpusManifest, Checks, is_unique, declared, validate_planned_run,
  validate_planned_runs, validate_scalars, validate_reference, validate_runs, validate_corpus,
  planned_for_run, allows,
}
use comm_guard.Corpus.Allowed.{Only, allows-one_slot}

evaluation : Unit {0}
unfolding contains same_set distinct keep is_unique declared validate_planned_run
    validate_planned_runs validate_scalars validate_reference validate_runs validate_corpus
    planned_for_run allows
evaluation = tt

abbrev checks : Checks
checks = record { is_sha256 = λ s. true; is_bad_path = λ s. false }

abbrev benign : PlannedRun
benign = record {
  plan_id = "p0";
  workload_family = "f";
  target_label = "x";
  designation = "benign";
  accepted_run_id = some "r0";
  random_seed = pos 1;
  workload_config_id = none;
}

abbrev calibration : PlannedRun
calibration = record benign {
  plan_id = "p1";
  designation = "calibration";
  accepted_run_id = some "r1";
}

abbrev manifest : CorpusManifest
manifest = record {
  corpus_id = "c";
  collection_id = "c";
  experiment_session_id = "s";
  node_id = "n";
  planned_runs = calibration ∷ benign ∷ [];
  accepted_run_ids = "r0" ∷ "r1" ∷ [];
  source_commit = "abc";
  input_archive_sha256 = none;
  random_seed = pos 7;
  calibration_reference = none;
  schema_version = "2.0";
  artifact_kind = "corpus_manifest";
}

manifest-valid : validate_corpus checks manifest ≡ ok tt
unfolding evaluation
manifest-valid = refl

manifest-allows :
    (allows manifest "r0" "benign" ≡ true)
    × (allows manifest "r1" "benign" ≡ false)
    × (allows manifest "r2" "benign" ≡ false)
unfolding evaluation
manifest-allows = (refl, refl, refl)

allows-one_slot_example :
    (p : PlannedRun) × (planned_for_run manifest.planned_runs "r0" ≡ some p)
    × (p.designation ≡ "benign")
    × All (Only "r0" p) manifest.planned_runs
allows-one_slot_example =
    allows-one_slot checks manifest "r0" "benign" manifest-valid refl manifest-allows.0
