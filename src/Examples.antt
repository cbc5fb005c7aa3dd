-- ===== src/Examples.antt =====
-- Runs of the models on small inputs, and the theorems at inputs that meet their hypotheses.
pub mod Scoring
pub mod Time
pub mod Names
pub mod Spots
pub mod Logs
pub mod Radios
pub mod Adif
