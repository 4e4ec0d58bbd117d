-- ===== src/Tests.antt =====
-- Runs of the definitions on small inputs, and the theorems at inputs that meet their hypotheses.
pub mod Data
pub mod Pool
pub mod Tables
pub mod Cache
pub mod Batches
pub mod Attention
pub mod Traces
pub mod Files
