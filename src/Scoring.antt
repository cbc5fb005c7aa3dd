-- ===== src/Scoring.antt =====
-- backend/src/scoring.rs: how contacts are scored.
pub mod FieldValue
pub mod Condition
pub mod Points
pub mod Module
pub mod Scorer
pub mod Incremental
pub mod Agreement
pub mod Contest
