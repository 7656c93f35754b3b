-- ===== src/Evaluation.antt =====
-- Metrics of a genome and what is computed from them (src/neuroforge/evaluation/).
pub mod Metrics
pub mod Pareto
pub mod Aggregate
pub mod Objectives
pub mod Statistics
pub mod Examples
