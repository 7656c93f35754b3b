-- ===== src/Evaluation/Metrics.antt =====
-- The metrics of one evaluation and their aggregate (src/neuroforge/evaluation/aggregate.py,
-- src/neuroforge/domains/base.py), and the outcome of a statistical comparison
-- (src/neuroforge/evaluation/statistics.py).
use neuro_forge.Base.{ℕ, String, Bool, List, [], ◌∷◌, ◌==◌, if◌then◌else◌}

-- A dict of floats, in insertion order.
abbrev pub Metrics : Type 0 → Type 0
Metrics F = List (String × F)

module _ {F : Type 0} where
  -- `metrics.get(name, default)`
  unfoldable pub get_or : String → F → Metrics F → F
  get_or name default [] = default
  get_or name default ((k, v) ∷ m) = if k == name then v else get_or name default m

  -- `d[name] = v`
  unfoldable pub put : String → F → Metrics F → Metrics F
  put name v [] = (name, v) ∷ []
  put name v ((k, w) ∷ m) = if k == name then (k, v) ∷ m else (k, w) ∷ put name v m

pub record EvaluationResult (F : Type 0) : Type 0 where
  pub challenge_id : String
  pub genome_hash : String
  pub metrics : Metrics F
  pub cost_usd : F
  pub latency_ms : F
  pub failed : Bool

pub record AggregateMetrics (F : Type 0) : Type 0 where
  pub genome_hash : String
  pub n_evaluations : ℕ
  pub metrics : Metrics F
  pub cost_usd : F
  pub latency_ms : F
  pub failure_rate : F
  pub per_category_quality : Metrics F

-- `AggregateMetrics.as_dict`
unfoldable pub as_dict : {F : Type 0} → AggregateMetrics F → Metrics F
unfolding put
as_dict agg =
    put "failure_rate" agg.failure_rate
      (put "latency_ms" agg.latency_ms (put "cost_usd" agg.cost_usd agg.metrics))

pub data Conclusion : Type 0 where
  likely_improvement likely_regression inconclusive : Conclusion

abbrev pub is_improvement : Conclusion → Bool
is_improvement likely_improvement = Bool.true
is_improvement _ = Bool.false

pub record ComparisonResult (F : Type 0) : Type 0 where
  pub mean_diff : F
  pub relative_diff : F
  pub ci_low : F
  pub ci_high : F
  pub effect_size : F
  pub confidence : F
  pub conclusion : Conclusion
