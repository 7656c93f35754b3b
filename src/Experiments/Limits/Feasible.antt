-- ===== src/Experiments/Limits/Feasible.antt =====
-- A feasible candidate clears the gates that promotion will apply.
use neuro_forge.Base.{
  ◌≡◌, refl, ap, ◌∙◌, inl, inr, Bool, true, false, not, ◌&&◌, none, List, [], ◌∷◌, map, length,
  if◌then◌else◌, Bool-cases, arith, All, All-append,
}
use neuro_forge.Base.Float
use neuro_forge.Base.Float.{
  Floats, Laws, le_lt_trans, lt_le_trans, le_trans, lt_asym, max_zero_nonneg,
}
use neuro_forge.Evaluation.Metrics.{Metrics, AggregateMetrics, as_dict, get_or}
use neuro_forge.Promotion.Safety.{
  SafetyConstraints, tightened, Violation, check_safety, safety_violations, violation_magnitude,
  policy_rate, is_empty, when_,
}
use neuro_forge.Promotion.Gates.{
  PromotionGateConfig, GateFinding, metric_gate_findings, safety_findings, safety_verdict,
  safety_magnitude, safety_finding, quality_of, cost_change, latency_change,
}
use neuro_forge.Promotion.Decision.{gates_hold, findings-is_empty}
use neuro_forge.Experiments.Limits.{search_gates, magnitude_of, violation_of, equal, is_feasible}

module _ (fl : Floats) (laws : Laws fl) where
  open fl use {F, add, sub, ltb}

  abbrev IsPositive : GateFinding F → Type 0
  IsPositive f = ltb (Float.f_zero fl) f.magnitude ≡ true

  All-when_ :
      (b : Bool) (f : GateFinding F) → (b ≡ true → IsPositive f) → All IsPositive (when_ b f)
  All-when_ true f h = (h refl, tt)
  All-when_ false f h = tt

  positive_difference : (a b : F) → ltb b a ≡ true → ltb (Float.f_zero fl) (sub a b) ≡ true
  positive_difference a b h = laws.sub_pos a b ∙ h

  -- A list of safety findings, all with one magnitude.
  All-map_finding :
      (m n : F) (vs : List (Violation F))
      → ltb (Float.f_zero fl) (fl.div m n) ≡ true
      → All IsPositive (map (safety_finding fl m n) vs)
  All-map_finding m n [] h = tt
  All-map_finding m n (v ∷ vs) h = (h, All-map_finding m n vs h)

  max_pos :
      (a : F)
      → ltb (Float.f_zero fl) a ≡ true
      → ltb (Float.f_zero fl) (Float.max fl (Float.f_zero fl) a) ≡ true
  max_pos a h = rw h h

  violated-positive :
      (m : Metrics F) (c : SafetyConstraints F)
      → is_empty (safety_violations fl m c) ≡ false
      → ltb (Float.f_zero fl) (violation_magnitude fl m c) ≡ true
  unfolding safety_violations violation_magnitude
  violated-positive m c h =
      let score = get_or "safety_score" (Float.f_one fl) m in
      let shortfall = sub c.min_safety_score score in
      let excess = sub (policy_rate fl m) c.max_policy_violation_rate in
      elim (Bool-cases (ltb score c.min_safety_score)) [
        | inl low ↦
            laws.add_pos (Float.max fl (Float.f_zero fl) shortfall)
              (Float.max fl (Float.f_zero fl) excess)
              (max_pos shortfall (positive_difference c.min_safety_score score low))
              (max_zero_nonneg fl laws excess)
        | inr fine ↦
            laws.add_pos_right (Float.max fl (Float.f_zero fl) shortfall)
              (Float.max fl (Float.f_zero fl) excess) (max_zero_nonneg fl laws shortfall)
              (max_pos excess
                (positive_difference (policy_rate fl m) c.max_policy_violation_rate (ground arith)))
      ]

  safety_findings-IsPositive :
      (c : AggregateMetrics F) (k : SafetyConstraints F)
      → All IsPositive (safety_findings fl c k none)
  unfolding safety_findings safety_verdict safety_magnitude check_safety
  safety_findings-IsPositive c k = by_violations (safety_violations fl (as_dict c) k) refl
    where
      by_violations :
          (vs : List (Violation F))
          → safety_violations fl (as_dict c) k ≡ vs
          → All IsPositive (
              map
                (safety_finding fl
                  (violation_magnitude fl (as_dict c) k)
                  (Float.float_of_length fl vs))
                (if not (is_empty vs) then vs else []))
      by_violations [] e = tt
      by_violations (v ∷ vs) e =
          All-map_finding (violation_magnitude fl (as_dict c) k) (Float.float_of_length fl (v ∷ vs))
            (v ∷ vs)
            (laws.div_pos (violation_magnitude fl (as_dict c) k) (Float.float_of_length fl (v ∷ vs))
              (violated-positive (as_dict c) k (ap is_empty e)) (laws.zero-lt-nat (length vs)))

  findings-IsPositive :
      (b c : AggregateMetrics F) (g : PromotionGateConfig F) (k : SafetyConstraints F)
      → All IsPositive (metric_gate_findings fl b c g k none)
  unfolding metric_gate_findings
  findings-IsPositive b c g k =
      All-append IsPositive _ _
        (All-append IsPositive _ _
          (All-append IsPositive _ _ (safety_findings-IsPositive c k) (
            All-when_ (ltb (quality_of fl c) g.min_quality) _
              (positive_difference g.min_quality (quality_of fl c))))
          (All-when_ (ltb g.max_cost_increase (cost_change fl b c)) _
            (positive_difference (cost_change fl b c) g.max_cost_increase)))
        (All-when_ (ltb g.max_latency_increase (latency_change fl b c)) _
          (positive_difference (latency_change fl b c) g.max_latency_increase))

  sum_from-positive :
      (acc : F) (fs : List (GateFinding F))
      → ltb (Float.f_zero fl) acc ≡ true
      → All IsPositive fs
      → ltb (Float.f_zero fl) (Float.sum_from fl acc (map (magnitude_of fl) fs)) ≡ true
  sum_from-positive acc [] h all = h
  sum_from-positive acc (f ∷ fs) h all =
      sum_from-positive (add acc f.magnitude) fs
        (laws.add_pos acc f.magnitude h (lt_asym fl laws (Float.f_zero fl) f.magnitude all.0)) all.1

  sum-positive :
      (f : GateFinding F) (fs : List (GateFinding F))
      → All IsPositive (f ∷ fs)
      → ltb (Float.f_zero fl) (Float.sum fl (map (magnitude_of fl) (f ∷ fs))) ≡ true
  sum-positive f fs all =
      sum_from-positive (add (Float.f_zero fl) f.magnitude) fs
        (laws.add_pos_right (Float.f_zero fl) f.magnitude (laws.lt_irrefl (Float.f_zero fl)) all.0)
        all.1

  zero_iff_empty :
      (fs : List (GateFinding F))
      → All IsPositive fs
      → equal fl (Float.sum fl (map (magnitude_of fl) fs)) (Float.f_zero fl) ≡ is_empty fs
  zero_iff_empty [] all = rw (laws.lt_irrefl (Float.f_zero fl)) refl
  zero_iff_empty (f ∷ fs) all = ground (arith, sum-positive f fs all)

  -- The search counts a candidate as feasible exactly when it did not time out and clears every gate at
  -- the search's limits: the sum of the magnitudes is zero for no other candidate.
  pub feasible-iff-gates :
      (b c : AggregateMetrics F) (g : PromotionGateConfig F) (k : SafetyConstraints F)
      (timed_out : Bool)
      → is_feasible fl (violation_of fl b c g k) timed_out
        ≡ (gates_hold fl b c g k none && not timed_out)
  unfolding is_feasible violation_of
  feasible-iff-gates b c g k timed_out =
      ap (λ v. v && not timed_out)
        (zero_iff_empty (metric_gate_findings fl b c g k none) (findings-IsPositive b c g k)
          ∙ findings-is_empty fl b c g k none)

  min_one_le :
      (limit margin : F)
      → ltb (Float.f_one fl) limit ≡ false
      → ltb margin (Float.f_zero fl) ≡ false
      → ltb (Float.min fl (Float.f_one fl) (add limit margin)) limit ≡ false
  min_one_le limit margin le nonneg = elim (Bool-cases (ltb (add limit margin) (Float.f_one fl))) [
    | inl below ↦ rw below (laws.add_nonneg limit margin nonneg)
    | inr above ↦ rw above le
  ]

  max_zero_le :
      (limit margin : F)
      → ltb limit (Float.f_zero fl) ≡ false
      → ltb margin (Float.f_zero fl) ≡ false
      → ltb limit (Float.max fl (Float.f_zero fl) (sub limit margin)) ≡ false
  max_zero_le limit margin le nonneg =
      elim (Bool-cases (ltb (Float.f_zero fl) (sub limit margin))) [
        | inl above ↦ rw above (laws.sub_nonneg limit margin nonneg)
        | inr below ↦ rw below le
      ]

  -- What is not below a higher floor is not below a lower one; and the same of ceilings.
  floor_lower : (x low high : F) → ltb high low ≡ false → ltb x high ≡ false → ltb x low ≡ false
  floor_lower x low high le h = le_trans fl laws low high x le h

  ceiling_higher : (x low high : F) → ltb high low ≡ false → ltb low x ≡ false → ltb high x ≡ false
  ceiling_higher x low high le h = le_trans fl laws x low high h le

  safety_loosened :
      (m : Metrics F) (k : SafetyConstraints F) (margin : F)
      → ltb (Float.f_one fl) k.min_safety_score ≡ false
      → ltb k.max_policy_violation_rate (Float.f_zero fl) ≡ false
      → ltb margin (Float.f_zero fl) ≡ false
      → (check_safety fl m (tightened fl k margin)).0 ≡ true
      → (check_safety fl m k).0 ≡ true
  unfolding check_safety safety_violations tightened
  safety_loosened m k margin one zero nonneg h =
      let score = get_or "safety_score" (Float.f_one fl) m in
      let floor = Float.min fl (Float.f_one fl) (add k.min_safety_score margin) in
      let ceiling = Float.max fl (Float.f_zero fl) (sub k.max_policy_violation_rate margin) in
      let score_ok : ltb score k.min_safety_score ≡ false =
        floor_lower score k.min_safety_score floor (min_one_le k.min_safety_score margin one nonneg)
          (ground arith) in
      let rate_ok : ltb k.max_policy_violation_rate (policy_rate fl m) ≡ false =
        ceiling_higher (policy_rate fl m) ceiling k.max_policy_violation_rate
          (max_zero_le k.max_policy_violation_rate margin zero nonneg) (ground arith) in
      ground (arith, score_ok, rate_ok)

  -- The limits are within the ranges that their fields are declared with.
  pub record InRange (g : PromotionGateConfig F) (k : SafetyConstraints F) : Type 0 where
    pub quality_le_one : ltb (Float.f_one fl) g.min_quality ≡ false
    pub safety_le_one : ltb (Float.f_one fl) k.min_safety_score ≡ false
    pub rate_nonneg : ltb k.max_policy_violation_rate (Float.f_zero fl) ≡ false

  -- A candidate that clears the search's tightened limits clears, on the same metrics, the limits that
  -- the experiment was given, for every margin that is not negative.
  pub search_limits_sound :
      (b c : AggregateMetrics F) (g : PromotionGateConfig F) (k : SafetyConstraints F)
      (quality_margin safety_margin : F)
      → InRange g k
      → ltb quality_margin (Float.f_zero fl) ≡ false
      → ltb safety_margin (Float.f_zero fl) ≡ false
      → gates_hold fl b c (search_gates fl g quality_margin) (tightened fl k safety_margin) none
        ≡ true
      → gates_hold fl b c g k none ≡ true
  unfolding search_gates safety_verdict
  search_limits_sound b c g k qm sm r q s h =
      let floor = Float.min fl (Float.f_one fl) (add g.min_quality qm) in
      let quality_ok : ltb (quality_of fl c) g.min_quality ≡ false =
        floor_lower (quality_of fl c) g.min_quality floor
          (min_one_le g.min_quality qm r.quality_le_one q) (ground arith) in
      let safety_ok =
        safety_loosened (as_dict c) k sm r.safety_le_one r.rate_nonneg s (ground arith) in
      ground (arith, quality_ok, safety_ok)
