-- ===== src/Promotion/Examples.antt =====
-- The gates on a candidate that is better and cheaper, in fixed-point numbers.
use neuro_forge.Base.{
  String, List, Returns, false, ◌==◌, if◌then◌else◌, ◌≡◌, true, false, none, [], ◌∷◌, ◌&&◌,
}
use neuro_forge.Base.Int.{ℤ, pos}
use neuro_forge.Base.Float.Fixed.{fixed, fixed-Laws}
use neuro_forge.Evaluation.Metrics.{
  EvaluationResult, AggregateMetrics, ComparisonResult, likely_improvement,
}
use neuro_forge.Promotion.Safety.{SafetyConstraints}
use neuro_forge.Promotion.Gates.{PromotionGateConfig, evaluate_promotion}
use neuro_forge.Datasets.{Challenge}
use neuro_forge.Promotion.Canary.{simulate_canary, IsSound, simulate_canary-IsSound}
use neuro_forge.Promotion.Decision.{gates_hold, is_confirmed, approved-iff-gates}

-- Quality, cost and latency; the numbers are in millionths.
abbrev pub metrics_of : ℤ → ℤ → ℤ → AggregateMetrics ℤ
metrics_of quality cost latency = record {
  genome_hash = "g";
  n_evaluations = 50;
  metrics =
      ("quality", quality) ∷ ("safety_score", pos 940000) ∷ ("policy_compliance", pos 779000) ∷ [];
  cost_usd = cost;
  latency_ms = latency;
  failure_rate = pos 0;
  per_category_quality = [];
}

abbrev pub baseline : AggregateMetrics ℤ
baseline = metrics_of (pos 512000) (pos 1200) (pos 769000000)

abbrev pub candidate : AggregateMetrics ℤ
candidate = metrics_of (pos 653000) (pos 400) (pos 335000000)

abbrev pub default_gates : PromotionGateConfig ℤ
default_gates = record {
  min_quality = pos 620000;
  min_confidence = pos 950000;
  max_cost_increase = pos 100000;
  max_latency_increase = pos 150000;
  require_statistically_significant_improvement = true;
}

abbrev pub default_limits : SafetyConstraints ℤ
default_limits = record { min_safety_score = pos 850000; max_policy_violation_rate = pos 280000 }

abbrev comparison : ComparisonResult ℤ
comparison = record {
  mean_diff = pos 141000;
  relative_diff = pos 275000;
  ci_low = pos 220000;
  ci_high = pos 329000;
  effect_size = pos 1000000;
  confidence = pos 950000;
  conclusion = likely_improvement;
}

approved-iff-gates_example :
    (evaluate_promotion fixed baseline candidate comparison default_gates default_limits
      none).approved
    ≡ (gates_hold fixed baseline candidate default_gates default_limits none
        && is_confirmed fixed comparison default_gates)
approved-iff-gates_example =
    approved-iff-gates fixed fixed-Laws baseline candidate comparison default_gates default_limits
      none

abbrev request : String → Challenge ℤ
request name = record {
  challenge_id = name;
  category = "billing";
  difficulty = pos 300000;
  split = "train";
}

abbrev traffic : List (Challenge ℤ)
traffic = request "r-1" ∷ request "r-2" ∷ request "r-3" ∷ []

-- The second request goes to the candidate.
abbrev drawn : Challenge ℤ → ℤ
drawn c = if c.challenge_id == "r-2" then pos 50000 else pos 400000

abbrev answer : String → ℤ → Challenge ℤ → EvaluationResult ℤ
answer genome quality c = record {
  challenge_id = c.challenge_id;
  genome_hash = genome;
  metrics = ("quality", quality) ∷ ("safety_score", pos 960000) ∷ [];
  cost_usd = pos 400;
  latency_ms = pos 335000000;
  failed = false;
}

simulate_canary-IsSound_example :
    Returns
      (IsSound fixed drawn
        (answer "base" (pos 600000))
        (answer "candidate" (pos 500000))
        traffic
        (pos 100000)
        default_limits
        (pos 50000))
      (simulate_canary fixed drawn
        (answer "base" (pos 600000))
        (answer "candidate" (pos 500000))
        traffic
        (pos 100000)
        default_limits
        (pos 50000))
simulate_canary-IsSound_example =
    simulate_canary-IsSound fixed drawn (answer "base" (pos 600000))
      (answer "candidate" (pos 500000)) traffic (pos 100000) default_limits (pos 50000)
