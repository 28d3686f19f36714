-- ===== src/Evaluation.antt =====
-- src/commguard/evaluation/splits.py
pub mod Groups
pub mod Rows
pub mod Finalize
pub mod Strategies
pub mod Plan
pub mod Folds
pub mod Audit
pub mod Tests
