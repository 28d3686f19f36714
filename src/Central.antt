-- ===== src/Central.antt =====
-- src/commguard/central
pub mod Json
pub mod Runtime
pub mod Flow
pub mod Messages
pub mod Security
pub mod Samples
pub mod Server
pub mod Detector
pub mod Protocol
pub mod Agent
pub mod Transport
pub mod Examples
pub mod Tests
