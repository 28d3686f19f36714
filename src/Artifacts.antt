-- ===== src/Artifacts.antt =====
-- src/commguard/artifacts
pub mod Storage
pub mod Tests
pub mod Tree
