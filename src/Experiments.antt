-- ===== src/Experiments.antt =====
-- The experiment engine and what it keeps (src/neuroforge/experiments/).
pub mod Budget
pub mod Checkpoint
pub mod Limits
pub mod Run
pub mod Candidate
pub mod Configure
mod Examples
