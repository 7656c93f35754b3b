-- ===== src/Optimization.antt =====
-- The search strategies (src/neuroforge/optimization/).
pub mod Strategy
pub mod Grid
