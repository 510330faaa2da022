-- ===== src/Tests.antt =====
-- Runs of the model on small inputs, and the theorems at inputs that meet their hypotheses.
pub mod Zsets
pub mod Streams
pub mod Views
pub mod Circuits
pub mod Rows
pub mod Names
pub mod Distinct
pub mod Dependencies
pub mod Plans
