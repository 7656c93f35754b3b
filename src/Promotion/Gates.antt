-- ===== src/Promotion/Gates.antt =====
-- The promotion gates (src/neuroforge/promotion/gates.py). A reason carries the numbers that its
-- message shows; the lines of `evidence`, which only report, are left out.
use neuro_forge.Base.{
  Bool, not, ◌&&◌, ◌||◌, Option, none, some, List, [], ◌∷◌, ◌++◌, map, if◌then◌else◌,
}
use neuro_forge.Base.Float
use neuro_forge.Base.Float.{Floats}
use neuro_forge.Genomes.{PromotionStatus, rejected}
use neuro_forge.Evaluation.Metrics.{
  get_or, AggregateMetrics, as_dict, Conclusion, is_improvement, ComparisonResult,
}
use neuro_forge.Promotion.Safety.{
  SafetyConstraints, SafetyEstimate, Violation, is_empty, when_, check_safety, violation_magnitude,
  estimate_check, estimate_magnitude,
}

pub record PromotionGateConfig (F : Type 0) : Type 0 where
  pub min_quality : F
  pub min_confidence : F
  pub max_cost_increase : F
  pub max_latency_increase : F
  pub require_statistically_significant_improvement : Bool

pub data GateReason (F : Type 0) : Type 0 where
  safety_violation : Violation F → GateReason F
  quality_below : F → F → GateReason F
  cost_increased : F → F → GateReason F
  latency_increased : F → F → GateReason F
  not_confirmed : Conclusion → GateReason F
  low_confidence : F → F → GateReason F
  regression_guard : GateReason F
  all_gates_passed : GateReason F

pub record GateFinding (F : Type 0) : Type 0 where
  pub reason : GateReason F
  pub magnitude : F

pub record PromotionDecision (F : Type 0) : Type 0 where
  pub approved : Bool
  pub next_status : PromotionStatus
  pub reasons : List (GateReason F)

module _ (fl : Floats) where
  open fl use {F, add, sub, div, ltb}

  unfoldable pub guard_limit : F → F
  guard_limit gate_limit = add gate_limit (Float.abs fl gate_limit)

  unfoldable pub fractional_increase : F → F → F
  fractional_increase baseline candidate =
      if Float.leb fl baseline (Float.f_zero fl)
      then (if Float.leb fl candidate (Float.f_zero fl) then Float.f_zero fl else Float.f_one fl)
      else div (sub candidate baseline) baseline

  abbrev pub quality_of : AggregateMetrics F → F
  quality_of agg = get_or "quality" (Float.f_zero fl) agg.metrics

  abbrev pub cost_change : AggregateMetrics F → AggregateMetrics F → F
  cost_change baseline candidate = fractional_increase baseline.cost_usd candidate.cost_usd

  abbrev pub latency_change : AggregateMetrics F → AggregateMetrics F → F
  latency_change baseline candidate = fractional_increase baseline.latency_ms candidate.latency_ms

  -- The safety verdict: at confidence bounds where an estimate is given, else on the aggregate.
  unfoldable pub safety_verdict :
      AggregateMetrics F
      → SafetyConstraints F
      → Option (SafetyEstimate F)
      → Bool × List (Violation F)
  safety_verdict candidate constraints none = check_safety fl (as_dict candidate) constraints
  safety_verdict candidate constraints (some e) = estimate_check fl e constraints

  unfoldable pub safety_magnitude :
      AggregateMetrics F → SafetyConstraints F → Option (SafetyEstimate F) → F
  safety_magnitude candidate constraints none =
      violation_magnitude fl (as_dict candidate) constraints
  safety_magnitude candidate constraints (some e) = estimate_magnitude fl e constraints

  abbrev pub safety_finding : F → F → Violation F → GateFinding F
  safety_finding magnitude n v = record { reason = safety_violation v; magnitude = div magnitude n }

  -- `for v in safety_violations if not safety_ok else []`
  unfoldable pub safety_findings :
      AggregateMetrics F → SafetyConstraints F → Option (SafetyEstimate F) → List (GateFinding F)
  safety_findings candidate constraints estimate =
      let (safety_ok, violations) = safety_verdict candidate constraints estimate in
      let magnitude = safety_magnitude candidate constraints estimate in
      map (safety_finding magnitude (Float.float_of_length fl violations))
        (if not safety_ok then violations else [])

  -- `if failed: findings.append(GateFinding(reason, magnitude))`
  abbrev pub gate : Bool → GateReason F → F → List (GateFinding F)
  gate failed reason magnitude = when_ failed (record { reason = reason; magnitude = magnitude })

  unfoldable pub metric_gate_findings :
      AggregateMetrics F
      → AggregateMetrics F
      → PromotionGateConfig F
      → SafetyConstraints F
      → Option (SafetyEstimate F)
      → List (GateFinding F)
  metric_gate_findings baseline candidate gates constraints estimate =
      let quality = quality_of candidate in
      let cost_increase = cost_change baseline candidate in
      let latency_increase = latency_change baseline candidate in
      safety_findings candidate constraints estimate
      ++ gate (ltb quality gates.min_quality) (quality_below quality gates.min_quality)
          (sub gates.min_quality quality)
      ++ gate (ltb gates.max_cost_increase cost_increase)
          (cost_increased cost_increase gates.max_cost_increase)
          (sub cost_increase gates.max_cost_increase)
      ++ gate (ltb gates.max_latency_increase latency_increase)
          (latency_increased latency_increase gates.max_latency_increase)
          (sub latency_increase gates.max_latency_increase)

  unfoldable pub significance_reasons :
      ComparisonResult F → PromotionGateConfig F → List (GateReason F)
  significance_reasons comparison gates =
      if gates.require_statistically_significant_improvement
      then (when_ (not (is_improvement comparison.conclusion)) (not_confirmed comparison.conclusion)
          ++ when_ (ltb comparison.confidence gates.min_confidence)
              (low_confidence comparison.confidence gates.min_confidence))
      else []

  unfoldable pub guard_fires :
      AggregateMetrics F → AggregateMetrics F → PromotionGateConfig F → Bool
  guard_fires baseline candidate gates =
      ltb (Float.f_zero fl) (sub (quality_of candidate) (quality_of baseline))
      && (ltb (guard_limit gates.max_cost_increase) (cost_change baseline candidate)
          || ltb (guard_limit gates.max_latency_increase) (latency_change baseline candidate))

  abbrev pub reason_of : GateFinding F → GateReason F
  reason_of f = f.reason

  unfoldable pub promotion_reasons :
      AggregateMetrics F
      → AggregateMetrics F
      → ComparisonResult F
      → PromotionGateConfig F
      → SafetyConstraints F
      → Option (SafetyEstimate F)
      → List (GateReason F)
  promotion_reasons baseline candidate comparison gates constraints estimate =
      map reason_of (metric_gate_findings baseline candidate gates constraints estimate)
      ++ significance_reasons comparison gates
      ++ when_ (guard_fires baseline candidate gates) regression_guard

  unfoldable pub evaluate_promotion :
      AggregateMetrics F
      → AggregateMetrics F
      → ComparisonResult F
      → PromotionGateConfig F
      → SafetyConstraints F
      → Option (SafetyEstimate F)
      → PromotionDecision F
  evaluate_promotion baseline candidate comparison gates constraints estimate =
      let reasons = promotion_reasons baseline candidate comparison gates constraints estimate in
      let is_approved = is_empty reasons in
      record {
        approved = is_approved;
        next_status = if is_approved then PromotionStatus.approved else rejected;
        reasons = if is_approved then all_gates_passed ∷ [] else reasons;
      }
