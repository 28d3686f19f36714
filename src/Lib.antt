-- ===== src/Lib.antt =====
-- CommGuard: a model of the central-monitoring prototype and of the data contracts of the study.
--
-- CommGuard collects GPU telemetry from node agents, and evaluates detectors on runs that are planned,
-- checked and split into groups. The modules follow the packages of src/commguard:
--
-- * Central (central): `Messages` has the envelopes of central/schemas.py with validate, to_dict and
--   from_dict; `Security` and `Samples` have central/security.py, with FieldReading of schemas.py;
--   `Server` has the state of CentralIngestionService, `Server.Ingest` its ingest (with
--   `Server.Replies`), `Server.Health` and
--   `Server.Window` node_health, agent_health and aggregate_window; `Detector` has DetectorService;
--   `Protocol` has protocol_sample and `Agent` has NodeAgent of central/agent.py; `Transport` has
--   OfflineFileTransport of central/transport.py. An agent signs batches and sends them through a
--   transport to the service, which checks and stores them; a window aggregates what is stored for the
--   detector service.
--   `Server.Trace` runs ingest over a sequence of calls.
-- * Duration (duration.py): the policy and the controller, and in `Duration.Loop` the loop that the
--   workloads of distributed/worker.py run with it.
-- * Corpus (corpus.py): planned runs, the manifest and its allow-list.
-- * Features (features): `Coverage` has coverage.py, with coverage records, the extraction result and the
--   primary gate; `Alignment`, `Extraction` and `Planned` have extraction.py: the pairing of the samples
--   of two devices, the windows of a run, and the cascade that includes or excludes a planned run.
-- * Evaluation (evaluation/splits.py): `Groups` has RunGroup, _run_groups and _counts, `Finalize` has
--   _finalize, `Strategies` the three ways of assigning runs, `Plan` make_split_plan, `Folds` the
--   cross-validation folds and `Audit` audit_leakage.
-- * Schemas (schemas.py): `Values` has what the checks do with JSON values, `Sample` TelemetrySample and
--   WorkloadEvent, `Manifest` RunManifest, `Artifact` validate_artifact, `Migration` the legacy migration
--   and load_artifact. `Evaluation.Rows` reads a loaded feature row for the split plans.
-- * Calibration (calibration.py): verify_calibration_reference, which ties a corpus to the file of its
--   calibration in the artifact store.
-- * Artifacts (artifacts/storage.py): `Tree` has directory trees, `Storage` restore_archive and the writes
--   of ArtifactStore; `Storage.Records` has write_json and write_jsonl, with the checks of `Schemas`.
-- * Participation (distributed/participation.py): the evidence of the two ranks.
-- * Adversarial (adversarial.py): the strategies with the checks of a configuration, and in `Table` the table
--   itself; `Schedule` has should_synchronize and synchronization_steps, `Averaging`
--   simulate_parameter_averaging, which runs over such a schedule, and `Holdout` AdversarialHoldoutPlan.
-- * Runs (distributed/launcher.py, orchestrator.py): `Launcher` has validate_participation over the events
--   of the two ranks; `Outcome` has the result of launch_torchrun, and _failure_category and the exit
--   status of _write_run_evidence, which read it.
-- * Prelude has the shared lists, dictionaries, integers, sorting and exceptions.
--
-- How the state corresponds. An object is a record of its fields, a method takes it and returns it; a
-- call that raises returns an exception as a value, and in ingest a third outcome is the early return.
-- A dictionary that is only read by key is a function to options, one that is iterated over is a list
-- of pairs. Readings of clocks, fresh identifiers, what a backend collects and what a transport
-- answers are arguments.
--
-- Parameters. `Central.Runtime` stands for json.dumps, hmac and the ASCII test of its compare_digest,
-- hashlib, datetime, int and str of texts, and statistics.fmean; `Evaluation.Strategies.Library` for
-- random.shuffle and round; `Corpus.Checks` for a regular expression and the path test;
-- `Calibration.Files` for pathlib, SHA-256 and json.loads; `Artifacts.Storage.Archives` for tarfile,
-- SHA-256 and PurePosixPath, and its `Records.Encoder` for json.dumps; `Schemas.Values.Calls` for
-- dict(value), math.isclose and the characters of a text; `Schemas.Artifact.Decoders` for float(value)
-- and the decoding of a corpus manifest and of a coverage record; `Schemas.Migration.Loader` for
-- json.loads and str.strip; function arguments stand for str.lower, str of a return code, the format
-- of a window length, the test for a text in a message and the match of a safe identifier.
-- `Adversarial.FloatOfText`, `Adversarial.Schedule.Draw` and `Adversarial.Averaging.Floats` stand for
-- float(text), random.Random and the arithmetic of floats, `Runs.Launcher.Deviates` for a comparison
-- of floats. What the files of a run hold is an argument of `Features.Planned`. Canonical JSON is
-- ASCII, so that its number of bytes is its number of characters.
--
-- Numbers. A float of a message is an integer multiple of 2 ^ -1074, which is exact. Times of the
-- service are whole microseconds, times of the monotonic clock and durations are whole nanoseconds,
-- split and stride fractions are millionths and scores are fixed-point numbers.
--
-- Fuel. `Evaluation.Strategies.make_room` runs the while loop of _stratified_assignments with the
-- sum of the two counts as fuel: each round takes one from a count that is above one.
-- `Duration.Loop.run_loop` takes fuel, one unit for each test, since the source's loop has no bound when
-- no iteration cap is set. `Features.Extraction.window_rows` takes one more than the length of
-- the interval, which each round makes shorter by the stride. All other loops are recursion on a
-- list or on a number of rounds.
--
-- Not modelled: an envelope field of another JSON type than its own; the tests of types in the checks of a
-- corpus, whose fields are typed; loaded telemetry that is no list of samples and a loaded manifest with
-- values of other types, on which `_extract_planned_run` raises; the HTTP transport, the command
-- line, the reports and the notebooks (input and output); the GPU workloads, the processes of the
-- launcher, NVML and the preflight (other processes and hardware); the floating-point columns of a feature
-- row and the baselines; the matrices of the orchestrator, the computation of a calibration, the export of
-- the artifact store and the registry of workloads.
mod Prelude
pub mod Adversarial
pub mod Artifacts
pub mod Calibration
pub mod Central
pub mod Duration
pub mod Evaluation
pub mod Corpus
pub mod Features
pub mod Participation
pub mod Runs
pub mod Schemas
