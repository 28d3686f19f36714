-- ===== src/Features.antt =====
-- src/commguard/features
pub mod Alignment
pub mod Coverage
pub mod Examples
pub mod Extraction
pub mod Planned
pub mod Tests
