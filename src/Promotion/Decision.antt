-- ===== src/Promotion/Decision.antt =====
-- When the gates approve (src/neuroforge/promotion/gates.py).
use neuro_forge.Base.{
  ◌≡◌, inl, inr, refl, ◌∙◌, Bool, true, false, not, ◌&&◌, ◌||◌, Option, none, some, List, [], ◌∷◌,
  ◌++◌, map, Bool-cases, arith,
}
use neuro_forge.Base.Float
use neuro_forge.Base.Float.{Floats, Laws, le_lt_trans, abs_nonneg}
use neuro_forge.Evaluation.Metrics.{AggregateMetrics, is_improvement, ComparisonResult}
use neuro_forge.Promotion.Safety.{
  SafetyConstraints, SafetyEstimate, is_empty, when_, check_safety, estimate_check,
}
use neuro_forge.Promotion.Gates.{
  PromotionGateConfig, guard_limit, quality_of, cost_change, latency_change, safety_verdict,
  safety_findings, metric_gate_findings, significance_reasons, guard_fires, promotion_reasons,
  evaluate_promotion,
}

is_empty-append {ℓ} :
    {A : Type ℓ} (xs ys : List A) → is_empty (xs ++ ys) ≡ (is_empty xs && is_empty ys)
is_empty-append [] ys = refl
is_empty-append (x ∷ xs) ys = refl

is_empty-map {ℓ κ} :
    {A : Type ℓ} {B : Type κ} (f : A → B) (xs : List A) → is_empty (map f xs) ≡ is_empty xs
is_empty-map f [] = refl
is_empty-map f (x ∷ xs) = refl

is_empty-when_ {ℓ} : {A : Type ℓ} (b : Bool) (x : A) → is_empty (when_ b x) ≡ not b
is_empty-when_ true x = refl
is_empty-when_ false x = refl

ruleset emptiness = (is_empty-append, is_empty-map, is_empty-when_)

module _ (fl : Floats) where
  open fl use {F, ltb}

  -- The verdict holds exactly when no violation is listed.
  verdict-is_empty :
      (candidate : AggregateMetrics F) (c : SafetyConstraints F) (e : Option (SafetyEstimate F))
      → is_empty (safety_verdict fl candidate c e).1 ≡ (safety_verdict fl candidate c e).0
  unfolding safety_verdict check_safety estimate_check
  verdict-is_empty candidate c none = refl
  verdict-is_empty candidate c (some e) = refl

  safety_findings-is_empty :
      (candidate : AggregateMetrics F) (c : SafetyConstraints F) (e : Option (SafetyEstimate F))
      → is_empty (safety_findings fl candidate c e) ≡ (safety_verdict fl candidate c e).0
  unfolding safety_findings
  safety_findings-is_empty candidate c e = elim (Bool-cases (safety_verdict fl candidate c e).0) [
    | inl good ↦ simp (is_empty-map, good)
    | inr bad ↦ simp (is_empty-map, bad) (verdict-is_empty candidate c e ∙ bad)
  ]

  -- The metric gates hold: safety, the quality floor, and the limits on cost and latency.
  abbrev pub gates_hold :
      AggregateMetrics F
      → AggregateMetrics F
      → PromotionGateConfig F
      → SafetyConstraints F
      → Option (SafetyEstimate F)
      → Bool
  gates_hold baseline candidate gates constraints estimate =
      (safety_verdict fl candidate constraints estimate).0
      && not (ltb (quality_of fl candidate) gates.min_quality)
      && not (ltb gates.max_cost_increase (cost_change fl baseline candidate))
      && not (ltb gates.max_latency_increase (latency_change fl baseline candidate))

  pub findings-is_empty :
      (b c : AggregateMetrics F) (g : PromotionGateConfig F) (k : SafetyConstraints F)
      (e : Option (SafetyEstimate F))
      → is_empty (metric_gate_findings fl b c g k e) ≡ gates_hold b c g k e
  unfolding metric_gate_findings
  findings-is_empty b c g k e = simp (emptiness, safety_findings-is_empty)

  -- The comparison shows an improvement, at the confidence that the gate asks for.
  abbrev pub is_confirmed : ComparisonResult F → PromotionGateConfig F → Bool
  is_confirmed comparison gates =
      not gates.require_statistically_significant_improvement
      || (is_improvement comparison.conclusion
          && not (ltb comparison.confidence gates.min_confidence))

  significance-is_empty :
      (r : ComparisonResult F) (g : PromotionGateConfig F)
      → is_empty (significance_reasons fl r g) ≡ is_confirmed r g
  unfolding significance_reasons
  significance-is_empty r g = ground arith

module _ (fl : Floats) (laws : Laws fl) where
  open fl use {F, ltb}

  guard_beyond :
      (limit change : F) → ltb (guard_limit fl limit) change ≡ true → ltb limit change ≡ true
  unfolding guard_limit
  guard_beyond limit change e =
      le_lt_trans fl laws limit (fl.add limit (Float.abs fl limit)) change
        (laws.add_nonneg limit (Float.abs fl limit) (abs_nonneg fl laws limit)) e

  -- The regression guard fires only where the cost gate or the latency gate has failed already.
  guard_redundant :
      (b c : AggregateMetrics F) (g : PromotionGateConfig F) (k : SafetyConstraints F)
      (e : Option (SafetyEstimate F))
      → gates_hold fl b c g k e ≡ true
      → guard_fires fl b c g ≡ false
  unfolding guard_fires
  guard_redundant b c g k e holds = ground (
    arith,
    guard_beyond g.max_cost_increase (cost_change fl b c),
    guard_beyond g.max_latency_increase (latency_change fl b c),
  )

  -- A candidate is approved exactly when the metric gates hold and, where a significant improvement is
  -- required, the comparison confirms it; the regression guard never changes the verdict.
  pub approved-iff-gates :
      (b c : AggregateMetrics F) (r : ComparisonResult F) (g : PromotionGateConfig F)
      (k : SafetyConstraints F) (e : Option (SafetyEstimate F))
      → (evaluate_promotion fl b c r g k e).approved
        ≡ (gates_hold fl b c g k e && is_confirmed fl r g)
  unfolding evaluate_promotion promotion_reasons
  approved-iff-gates b c r g k e =
      simp (emptiness, findings-is_empty fl, significance-is_empty fl)
        (ground (arith, guard_redundant b c g k e))
