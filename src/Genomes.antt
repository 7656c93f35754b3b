-- ===== src/Genomes.antt =====
-- The promotion status of a genome (src/neuroforge/genomes/schema.py).
pub mod Schema
use neuro_forge.Base.{Bool, true, false, ◌||◌}

pub data PromotionStatus : Type 0 where
  generated validated benchmarked holdout_tested approved canary promoted rejected : PromotionStatus
  rolled_back superseded : PromotionStatus

unfoldable pub PromotionStatus-discrete : Discrete PromotionStatus
PromotionStatus-discrete = hlevel

abbrev pub is_promoted : PromotionStatus → Bool
is_promoted promoted = true
is_promoted _ = false

abbrev pub is_superseded : PromotionStatus → Bool
is_superseded superseded = true
is_superseded _ = false

abbrev pub is_canary : PromotionStatus → Bool
is_canary canary = true
is_canary _ = false

-- The statuses that only the production history gives.
abbrev pub in_production : PromotionStatus → Bool
in_production s = is_promoted s || is_superseded s
