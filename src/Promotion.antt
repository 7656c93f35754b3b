-- ===== src/Promotion.antt =====
-- The gates between a candidate and production (src/neuroforge/promotion/).
pub mod Safety
pub mod Gates
pub mod Decision
pub mod Canary
pub mod Holdout
pub mod Review
pub mod Examples
