-- ===== src/Promotion/Safety.antt =====
-- The hard safety constraints, as a point estimate and at confidence bounds
-- (src/neuroforge/promotion/safety.py). A violation carries the numbers that its message shows.
use neuro_forge.Base.{
  ℕ, Bool, true, false, not, ◌&&◌, List, [], ◌∷◌, ◌++◌, map, max, length, if◌then◌else◌,
}
use neuro_forge.Base.Float
use neuro_forge.Base.Float.{Floats}
use neuro_forge.Evaluation.Metrics.{Metrics, get_or}

pub record SafetyConstraints (F : Type 0) : Type 0 where
  pub min_safety_score : F
  pub max_policy_violation_rate : F

-- Which constraint is violated, the value that was compared, and the limit.
pub data Violation (F : Type 0) : Type 0 where
  safety_score_low : F → F → Violation F
  policy_rate_high : F → F → Violation F

pub record SafetyEstimate (F : Type 0) : Type 0 where
  pub n : ℕ
  pub confidence : F
  pub has_policy_metric : Bool
  pub policy_violation_rate : F
  pub policy_violation_upper : F
  pub safety_score : F
  pub safety_score_lower : F

abbrev pub is_empty {ℓ} : {A : Type ℓ} → List A → Bool
is_empty [] = true
is_empty (x ∷ xs) = false

-- `xs` if a condition holds, as in `if c: out.append(x)`.
abbrev pub when_ {ℓ} : {A : Type ℓ} → Bool → A → List A
when_ true x = x ∷ []
when_ false x = []

pub data Side : Type 0 where
  upper lower : Side

module _ (fl : Floats) where
  open fl use {F, dec, add, sub, div, ltb}

  -- `SafetyConstraints.tightened`
  unfoldable pub tightened : SafetyConstraints F → F → SafetyConstraints F
  tightened c margin = record {
    min_safety_score = Float.min fl (Float.f_one fl) (add c.min_safety_score margin);
    max_policy_violation_rate =
        Float.max fl (Float.f_zero fl) (sub c.max_policy_violation_rate margin);
  }

  abbrev pub policy_rate : Metrics F → F
  policy_rate metrics = sub (Float.f_one fl) (get_or "policy_compliance" (Float.f_one fl) metrics)

  unfoldable pub safety_violations : Metrics F → SafetyConstraints F → List (Violation F)
  safety_violations metrics c =
      let score = get_or "safety_score" (Float.f_one fl) metrics in
      let rate = policy_rate metrics in
      when_ (ltb score c.min_safety_score) (safety_score_low score c.min_safety_score)
      ++ when_ (ltb c.max_policy_violation_rate rate)
          (policy_rate_high rate c.max_policy_violation_rate)

  unfoldable pub check_safety : Metrics F → SafetyConstraints F → Bool × List (Violation F)
  check_safety metrics c =
      let violations = safety_violations metrics c in (is_empty violations, violations)

  unfoldable pub violation_magnitude : Metrics F → SafetyConstraints F → F
  violation_magnitude metrics c =
      add
        (Float.max fl (Float.f_zero fl)
          (sub c.min_safety_score (get_or "safety_score" (Float.f_one fl) metrics)))
        (Float.max fl (Float.f_zero fl) (sub (policy_rate metrics) c.max_policy_violation_rate))

  unfoldable pub estimate_violations : SafetyEstimate F → SafetyConstraints F → List (Violation F)
  estimate_violations e c =
      when_ (ltb e.safety_score_lower c.min_safety_score)
        (safety_score_low e.safety_score_lower c.min_safety_score)
      ++ when_ (e.has_policy_metric && ltb c.max_policy_violation_rate e.policy_violation_upper)
          (policy_rate_high e.policy_violation_upper c.max_policy_violation_rate)

  -- `SafetyEstimate.check`
  unfoldable pub estimate_check : SafetyEstimate F → SafetyConstraints F → Bool × List (Violation F)
  estimate_check e c = let violations = estimate_violations e c in (is_empty violations, violations)

  -- `SafetyEstimate.violation_magnitude`
  unfoldable pub estimate_magnitude : SafetyEstimate F → SafetyConstraints F → F
  estimate_magnitude e c =
      add (Float.max fl (Float.f_zero fl) (sub c.min_safety_score e.safety_score_lower)) (
        if e.has_policy_metric
        then Float.max fl (Float.f_zero fl)
            (sub e.policy_violation_upper c.max_policy_violation_rate)
        else Float.f_zero fl)

  abbrev mean_or : F → List F → F
  mean_or default [] = default
  mean_or default (x ∷ xs) = div (Float.sum fl (x ∷ xs)) (Float.float_of_length fl (x ∷ xs))

  -- `bootstrap_mean_bound` resamples with numpy's generator: it is a parameter. It is called on a list
  -- that is not empty.
  module _ (bootstrap_mean_bound : List F → Side → F → ℕ → F) where
    abbrev bound_or : F → List F → Side → F → ℕ → F
    bound_or default [] side confidence seed = default
    bound_or default (x ∷ xs) side confidence seed =
        bootstrap_mean_bound (x ∷ xs) side confidence seed

    -- The values of `safety_score` and `policy_compliance`, one for each challenge that reports them.
    unfoldable pub estimate_safety : List F → List F → F → ℕ → SafetyEstimate F
    estimate_safety safety_values compliance confidence seed =
        let violation_values = map (λ v. sub (Float.f_one fl) v) compliance in
        record {
          n = max (length safety_values) (length compliance);
          confidence = confidence;
          has_policy_metric = not (is_empty compliance);
          policy_violation_rate = mean_or (Float.f_zero fl) violation_values;
          policy_violation_upper =
              bound_or (Float.f_zero fl) violation_values upper confidence seed;
          safety_score = mean_or (Float.f_one fl) safety_values;
          safety_score_lower = bound_or (Float.f_one fl) safety_values lower confidence seed;
        }
