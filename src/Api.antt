-- ===== src/Api.antt =====
-- The web API (src/apps/api/neuroforge_api/).
pub mod Auth
pub mod Endpoint
pub mod Promotions
pub mod Experiments
pub mod Examples
