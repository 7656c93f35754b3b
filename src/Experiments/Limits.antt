-- ===== src/Experiments/Limits.antt =====
-- The limits that the search aims at, and the fitness of a candidate outside them
-- (src/neuroforge/experiments/engine.py, `_run`).
pub mod Feasible
use neuro_forge.Base.{
  ℕ, Bool, true, false, not, ◌&&◌, Option, none, List, [], ◌∷◌, map, if◌then◌else◌,
}
use neuro_forge.Base.Float
use neuro_forge.Base.Float.{Floats}
use neuro_forge.Evaluation.Metrics.{AggregateMetrics}
use neuro_forge.Promotion.Safety.{SafetyConstraints}
use neuro_forge.Promotion.Gates.{PromotionGateConfig, GateFinding, metric_gate_findings}

module _ (fl : Floats) where
  open fl use {F, add, mul, div, ltb}

  -- The promotion gates with the quality floor raised by the margin, up to 1.
  unfoldable pub search_gates : PromotionGateConfig F → F → PromotionGateConfig F
  search_gates gates margin = record gates {
    min_quality = Float.min fl (Float.f_one fl) (add gates.min_quality margin);
  }

  abbrev pub magnitude_of : GateFinding F → F
  magnitude_of f = f.magnitude

  -- How far outside the limits a candidate is, over all the gates that it fails.
  unfoldable pub violation_of :
      AggregateMetrics F → AggregateMetrics F → PromotionGateConfig F → SafetyConstraints F → F
  violation_of baseline agg gates safety =
      Float.sum fl (map magnitude_of (metric_gate_findings fl baseline agg gates safety none))

  -- `a == b`
  abbrev pub equal : F → F → Bool
  equal a b = not (ltb a b) && not (ltb b a)

  unfoldable pub is_feasible : F → Bool → Bool
  is_feasible violation timed_out = equal violation (Float.f_zero fl) && not timed_out

  unfoldable pub shaped_fitness : F → F → F → Bool → F
  shaped_fitness base_fitness penalty violation timed_out =
      if timed_out
      then Float.f_zero fl
      else div base_fitness (add (Float.f_one fl) (mul penalty violation))

  -- `(feasible, fitness) > (best_feasible, best_fitness)` on tuples; `none` is minus infinity.
  unfoldable pub beats : Bool → F → Bool → Option F → Bool
  beats true fitness false best = true
  beats false fitness true best = false
  beats feasible fitness best_feasible none = true
  beats feasible fitness best_feasible (Option.some best) = ltb best fitness
