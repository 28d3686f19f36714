-- ===== src/Features/Planned/Reported.antt =====
-- What `_extract_planned_run` reports of every run.
use comm_guard.Prelude.{
  ◌≡◌, refl, ℕ, String, not, ◌||◌, Option, none, some, ◌==◌, contains, if◌then◌else◌, Exception, ok,
}
use comm_guard.Corpus.{PlannedRun, CorpusManifest, allows}
use comm_guard.Features.Planned.{
  RunRecord, ManifestFile, missing, unreadable, loaded, TelemetryFile, absent, refused, samples,
  Policy, differs,
}
use comm_guard.Features.Planned.Cascade.{
  Outcome, extract_telemetry, extract_loaded, extract_manifest, extract_accepted,
  extract_planned_run,
}
use comm_guard.Features.Planned.Valid.{IsContext}
use comm_guard.Features.Planned.Measuring.{
  IsReported, Reports, Reports-if, either_code, early, extract_samples-Reports,
}

-- A refusal of the telemetry is a `ValidationError`.
abbrev pub IsHandled {ℓ} : {A : Type ℓ} → TelemetryFile A → Type 0
IsHandled (refused e) = (message : String) × (e ≡ Exception.validation_error message)
IsHandled _ = Unit {0}

module _ {ℓ} {A : Type ℓ} (gpu time : A → ℕ) (p : Policy) (corpus : CorpusManifest)
    (plan : PlannedRun) (context : IsContext corpus plan p) where
  extract_telemetry-Reports :
      (m : RunRecord) (telemetry : TelemetryFile A)
      → IsHandled telemetry
      → Reports p (extract_telemetry gpu time p corpus plan m telemetry)
  unfolding contains
  extract_telemetry-Reports m absent handled =
      early gpu time p corpus plan context "missing_telemetry" (some m) refl
  extract_telemetry-Reports m (refused e) (message, is) = rw is (
      early gpu time p corpus plan context
        (if p.mentions_version message then "unsupported_telemetry_schema" else "feature_error")
        (some m)
        (either_code (p.mentions_version message) "unsupported_telemetry_schema" "feature_error"
          refl refl))
  extract_telemetry-Reports m (samples all) handled =
      extract_samples-Reports gpu time p corpus plan context m all

  extract_loaded-Reports :
      (m : RunRecord) (telemetry : TelemetryFile A)
      → IsHandled telemetry
      → Reports p (extract_loaded gpu time p corpus plan m telemetry)
  unfolding extract_loaded contains
  extract_loaded-Reports m telemetry handled =
      Reports-if p (differs m.corpus_id corpus.corpus_id) _ _
        (λ other. early gpu time p corpus plan context "not_in_selected_corpus" (some m) refl)
        (λ same.
          Reports-if p (not (m.exit_status == "completed")) _ _
            (λ failed. early gpu time p corpus plan context "incomplete_run" (some m) refl)
            (λ completed.
              Reports-if p (not m.participation_valid) _ _
                (λ invalid.
                  early gpu time p corpus plan context "participation_invalid" (some m) refl)
                (λ participated.
                  Reports-if p
                    (not (m.workload_family == plan.workload_family)
                      || not (m.workload_label == plan.target_label))
                    _ _
                    (λ mismatch.
                      early gpu time p corpus plan context "invalid_manifest" (some m) refl)
                    (λ match. extract_telemetry-Reports m telemetry handled))))

  extract_manifest-Reports :
      (manifest : ManifestFile) (telemetry : TelemetryFile A)
      → IsHandled telemetry
      → Reports p (extract_manifest gpu time p corpus plan manifest telemetry)
  unfolding contains
  extract_manifest-Reports missing telemetry handled =
      early gpu time p corpus plan context "incomplete_run" none refl
  extract_manifest-Reports (unreadable e) telemetry handled =
      early gpu time p corpus plan context "invalid_manifest" none refl
  extract_manifest-Reports (loaded m) telemetry handled = extract_loaded-Reports m telemetry handled

  extract_accepted-Reports :
      (accepted : Option String) (manifest : ManifestFile) (telemetry : TelemetryFile A)
      → IsHandled telemetry
      → Reports p (extract_accepted gpu time p corpus plan accepted manifest telemetry)
  unfolding contains
  extract_accepted-Reports none manifest telemetry handled =
      early gpu time p corpus plan context "incomplete_run" none refl
  extract_accepted-Reports (some run_id) manifest telemetry handled =
      Reports-if p (not (contains p.selected_designations plan.designation)) _ _
        (λ other.
          early gpu time p corpus plan context
            (if plan.designation == "calibration"
              then "calibration_run_excluded"
              else "not_in_selected_corpus")
            none
            (either_code (plan.designation == "calibration") "calibration_run_excluded"
              "not_in_selected_corpus" refl refl))
        (λ selected.
          Reports-if p (not (allows corpus run_id plan.designation)) _ _
            (λ refused_run. early gpu time p corpus plan context "not_in_selected_corpus" none refl)
            (λ allowed. extract_manifest-Reports manifest telemetry handled))

  -- Every planned run is reported: included with rows and without a reason, or excluded without rows.
  -- The record passes the checks of coverage records, unless its reason is `no_common_interval`. This
  -- is for a manifest file that is missing, refused, or loaded with fields of the types of
  -- `RunRecord`, and for telemetry that is absent, refused by a `ValidationError`, or a list of samples
  -- whose device and time are numbers that are not negative. The names of the corpus and the plan are
  -- not empty, the windows positive and requested, and the tolerance not negative.
  pub extract_planned_run-IsReported :
      (manifest : ManifestFile) (telemetry : TelemetryFile A)
      → IsHandled telemetry
      → (o : Outcome) × (extract_planned_run gpu time p corpus plan manifest telemetry ≡ ok o)
        × IsReported p o
  unfolding extract_planned_run
  extract_planned_run-IsReported manifest telemetry handled =
      extract_accepted-Reports plan.accepted_run_id manifest telemetry handled
