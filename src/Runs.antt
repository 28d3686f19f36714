-- ===== src/Runs.antt =====
-- The execution of runs: src/commguard/distributed/launcher.py and src/commguard/orchestrator.py.
pub mod Launcher
pub mod Outcome
pub mod Evidence
pub mod Participated
pub mod Reasons
pub mod Recorded
pub mod Tests
