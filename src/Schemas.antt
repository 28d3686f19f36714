-- ===== src/Schemas.antt =====
-- src/commguard/schemas.py
pub mod Values
pub mod Sample
pub mod Manifest
pub mod Artifact
pub mod Migration
pub mod Tests
