-- ===== src/Promotion/Canary.antt =====
-- The canary (src/neuroforge/promotion/canary.py). The number in [0, 1) that a genome and a request
-- draw (SHA-256), and the domain's evaluation, are parameters.
use neuro_forge.Base.{
  ℕ, ◌≡◌, refl, String, Bool, true, false, not, ◌||◌, List, [], ◌∷◌, ◌++◌, map, keep, length, arith,
  Option, none, some, Result, ok, ◌>>=◌, or_raise, Returns, if◌then◌else◌, Bool-cases, inl, inr,
}
use neuro_forge.Base.Float
use neuro_forge.Base.Float.{Floats}
use neuro_forge.Evaluation.Metrics.{EvaluationResult, AggregateMetrics, as_dict, get_or}
use neuro_forge.Evaluation.Aggregate.{aggregate}
use neuro_forge.Promotion.Safety.{
  SafetyConstraints, Violation, is_empty, when_, safety_violations, check_safety,
}
use neuro_forge.Datasets.{Challenge}

-- A reason carries the numbers that its message shows.
pub data CanaryReason (F : Type 0) : Type 0 where
  safety_reason : Violation F → CanaryReason F
  quality_regressed failure_rate_exceeds : F → F → CanaryReason F
  within_thresholds : CanaryReason F

pub record CanaryResult (F : Type 0) : Type 0 where
  pub baseline_metrics : AggregateMetrics F
  pub candidate_metrics : AggregateMetrics F
  pub traffic_split : F
  pub n_baseline_requests : ℕ
  pub n_candidate_requests : ℕ
  pub rollback_triggered : Bool
  pub reasons : List (CanaryReason F)

pub data CanaryError : Type 0 where
  sample_too_small : CanaryError

-- The results of one arm with the categories of its requests.
pub record Arm (F : Type 0) : Type 0 where
  pub results : List (EvaluationResult F)
  pub categories : List String

module _ (fl : Floats) (to_candidate : Challenge fl.F → fl.F) where
  open fl use {F, dec, add, sub, ltb}

  -- The requests that go to the candidate, or, with `wanted` false, to the baseline.
  unfoldable pub route : F → Bool → (Challenge F → EvaluationResult F) → List (Challenge F) → Arm F
  route fraction wanted evaluate [] = record { results = []; categories = [] }
  route fraction wanted evaluate (c ∷ cs) =
      let rest = route fraction wanted evaluate cs in
      let sent = ltb (to_candidate c) fraction in
      if (if wanted then sent else not sent)
      then record { results = evaluate c ∷ rest.results; categories = c.category ∷ rest.categories }
      else rest

  abbrev pub quality_drop : AggregateMetrics F → AggregateMetrics F → F
  quality_drop base cand =
      sub (get_or "quality" (Float.f_zero fl) base.metrics)
        (get_or "quality" (Float.f_zero fl) cand.metrics)

  abbrev pub failure_limit : AggregateMetrics F → F
  failure_limit base = add base.failure_rate (dec 15 2)

  -- The reasons to roll back.
  unfoldable pub canary_reasons :
      SafetyConstraints F → F → AggregateMetrics F → AggregateMetrics F → List (CanaryReason F)
  canary_reasons safety max_regression base cand =
      let (safety_ok, violations) = check_safety fl (as_dict cand) safety in
      map safety_reason (if not safety_ok then violations else [])
      ++ when_ (ltb max_regression (quality_drop base cand))
          (quality_regressed (quality_drop base cand) max_regression)
      ++ when_ (ltb (failure_limit base) cand.failure_rate)
          (failure_rate_exceeds cand.failure_rate base.failure_rate)

  unfoldable pub simulate_canary :
      (Challenge F → EvaluationResult F)
      → (Challenge F → EvaluationResult F)
      → List (Challenge F)
      → F
      → SafetyConstraints F
      → F
      → Result CanaryError (CanaryResult F)
  simulate_canary run_baseline run_candidate traffic fraction safety max_regression =
      let base_arm = route fraction false run_baseline traffic in
      let cand_arm = route fraction true run_candidate traffic in
      or_raise (aggregate fl base_arm.results base_arm.categories) sample_too_small >>= λ base.
      or_raise (aggregate fl cand_arm.results cand_arm.categories) sample_too_small >>= λ cand.
      let reasons = canary_reasons safety max_regression base cand in
      ok (record {
        baseline_metrics = base;
        candidate_metrics = cand;
        traffic_split = fraction;
        n_baseline_requests = length base_arm.results;
        n_candidate_requests = length cand_arm.results;
        rollback_triggered = not (is_empty reasons);
        reasons = if is_empty reasons then within_thresholds ∷ [] else reasons;
      })

  -- The requests that draw less than the fraction, and the others.
  abbrev pub to_the_candidate : F → List (Challenge F) → List (Challenge F)
  to_the_candidate fraction cs = keep (λ c. ltb (to_candidate c) fraction) cs

  abbrev pub to_the_baseline : F → List (Challenge F) → List (Challenge F)
  to_the_baseline fraction cs = keep (λ c. not (ltb (to_candidate c) fraction)) cs

  -- The arm of the requests `cs`.
  abbrev arm_of : (Challenge F → EvaluationResult F) → List (Challenge F) → Arm F
  arm_of evaluate cs = record { results = map evaluate cs; categories = map (λ c. c.category) cs }

  route_candidate :
      (fraction : F) (f : Challenge F → EvaluationResult F) (cs : List (Challenge F))
      → route fraction true f cs ≡ arm_of f (to_the_candidate fraction cs)
  unfolding route
  route_candidate fraction f [] = refl
  route_candidate fraction f (c ∷ cs) = elim (Bool-cases (ltb (to_candidate c) fraction)) [
    | inl e ↦ rw (e, keep, route_candidate fraction f cs) refl
    | inr e ↦ rw (e, keep) (route_candidate fraction f cs)
  ]

  route_baseline :
      (fraction : F) (f : Challenge F → EvaluationResult F) (cs : List (Challenge F))
      → route fraction false f cs ≡ arm_of f (to_the_baseline fraction cs)
  unfolding route
  route_baseline fraction f [] = refl
  route_baseline fraction f (c ∷ cs) = elim (Bool-cases (ltb (to_candidate c) fraction)) [
    | inl e ↦ rw (e, keep) (route_baseline fraction f cs)
    | inr e ↦ rw (e, keep, route_baseline fraction f cs) refl
  ]

  -- The candidate's safety score or its rate of policy violations breaks its limit, its quality is lower
  -- by more than `m`, or its failure rate is more than the baseline's and 0.15.
  abbrev pub falls_back : SafetyConstraints F → F → AggregateMetrics F → AggregateMetrics F → Bool
  falls_back safety m base cand =
      ltb (get_or "safety_score" (Float.f_one fl) (as_dict cand)) safety.min_safety_score
      || ltb safety.max_policy_violation_rate
          (sub (Float.f_one fl) (get_or "policy_compliance" (Float.f_one fl) (as_dict cand)))
      || ltb m (
          sub (get_or "quality" (Float.f_zero fl) base.metrics)
            (get_or "quality" (Float.f_zero fl) cand.metrics))
      || ltb (add base.failure_rate (dec 15 2)) cand.failure_rate

  canary_reasons-is_empty :
      (safety : SafetyConstraints F) (m : F) (base cand : AggregateMetrics F)
      → not (is_empty (canary_reasons safety m base cand)) ≡ falls_back safety m base cand
  unfolding canary_reasons check_safety safety_violations
  canary_reasons-is_empty safety m base cand = ground arith

  -- What a canary with a verdict has done with the traffic.
  abbrev pub IsSound :
      (Challenge F → EvaluationResult F)
      → (Challenge F → EvaluationResult F)
      → List (Challenge F)
      → F
      → SafetyConstraints F
      → F
      → CanaryResult F
      → Type 0
  IsSound run_baseline run_candidate traffic fraction safety m r =
      let bs = to_the_baseline fraction traffic in
      let cs = to_the_candidate fraction traffic in
      (r.n_baseline_requests ≡ length (map run_baseline bs))
      × (r.n_candidate_requests ≡ length (map run_candidate cs))
      × (aggregate fl (map run_baseline bs) (map (λ c. c.category) bs) ≡ some r.baseline_metrics)
      × (aggregate fl (map run_candidate cs) (map (λ c. c.category) cs) ≡ some r.candidate_metrics)
      × (r.rollback_triggered ≡ falls_back safety m r.baseline_metrics r.candidate_metrics)

  -- A canary that reaches a verdict has measured the candidate on exactly the requests that draw less
  -- than the fraction, and the baseline on the others, and rolls back exactly when the candidate's
  -- metrics break a safety limit, its quality falls by more than the limit, or its failure rate exceeds
  -- the baseline's by more than 0.15.
  pub simulate_canary-IsSound :
      (run_baseline run_candidate : Challenge F → EvaluationResult F) (traffic : List (Challenge F))
      (fraction : F) (safety : SafetyConstraints F) (m : F)
      → Returns
          (IsSound run_baseline run_candidate traffic fraction safety m)
          (simulate_canary run_baseline run_candidate traffic fraction safety m)
  unfolding simulate_canary
  simulate_canary-IsSound run_baseline run_candidate traffic fraction safety m =
      rw
        (
          route_baseline fraction run_baseline traffic,
          route_candidate fraction run_candidate traffic,
        )
        (by_arms (aggregate fl (map run_baseline bs) (map (λ c. c.category) bs))
          (aggregate fl (map run_candidate cs) (map (λ c. c.category) cs)) refl refl)
    where
      bs : List (Challenge F)
      bs = to_the_baseline fraction traffic

      cs : List (Challenge F)
      cs = to_the_candidate fraction traffic

      by_arms :
          (o p : Option (AggregateMetrics F))
          → aggregate fl (map run_baseline bs) (map (λ c. c.category) bs) ≡ o
          → aggregate fl (map run_candidate cs) (map (λ c. c.category) cs) ≡ p
          → Returns (IsSound run_baseline run_candidate traffic fraction safety m) (
              or_raise o sample_too_small >>= λ base. or_raise p sample_too_small >>= λ cand.
              ok (record {
                baseline_metrics = base;
                candidate_metrics = cand;
                traffic_split = fraction;
                n_baseline_requests = length (map run_baseline bs);
                n_candidate_requests = length (map run_candidate cs);
                rollback_triggered = not (is_empty (canary_reasons safety m base cand));
                reasons =
                    if is_empty (canary_reasons safety m base cand)
                    then within_thresholds ∷ []
                    else canary_reasons safety m base cand;
              }))
      by_arms none p b c = tt
      by_arms (some base) none b c = tt
      by_arms (some base) (some cand) b c =
          (refl, refl, b, c, canary_reasons-is_empty safety m base cand)
