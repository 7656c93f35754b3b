-- ===== src/Promotion/Holdout.antt =====
-- The evidence of the holdout split (src/neuroforge/promotion/holdout.py). A genome is named by its
-- hash; the domain's evaluation and the bootstrap are parameters.
pub mod Decided
use neuro_forge.Base.{
  ℕ, String, Bool, true, false, not, ◌||◌, Option, none, some, List, [], ◌∷◌, ◌++◌, map, keep,
  length, elem, ltb as nat_ltb, ◌==◌, if◌then◌else◌, Result, ok, err, ◌>>=◌, ◌>>◌, raise_if,
  or_raise,
}
use neuro_forge.Base.Float
use neuro_forge.Base.Float.{Floats}
use neuro_forge.Evaluation.Metrics.{
  Metrics, get_or, EvaluationResult, AggregateMetrics, as_dict, ComparisonResult,
}
use neuro_forge.Evaluation.Aggregate.{sorted_set, all_keys, aggregate}
use neuro_forge.Evaluation.Statistics.{Numerics, CompareError, compare}
use neuro_forge.Promotion.Safety.{SafetyConstraints, SafetyEstimate, Side, estimate_safety}
use neuro_forge.Promotion.Gates.{PromotionGateConfig, PromotionDecision, evaluate_promotion}
use neuro_forge.Datasets.{Challenge, DatasetVersion}
use neuro_forge.Datasets.Holdout.{HoldoutGuard, HoldoutViolation, evaluate_holdout}

abbrev pub min_holdout_challenges : ℕ
min_holdout_challenges = 10

pub record HoldoutEvidence (F : Type 0) : Type 0 where
  pub dataset_id : String
  pub dataset_version : ℕ
  pub baseline_hash : String
  pub n_holdout : ℕ
  pub baseline_metrics : Metrics F
  pub candidate_metrics : Metrics F
  pub comparison : ComparisonResult F
  pub safety : SafetyEstimate F

pub data EvidenceError : Type 0 where
  used_before : HoldoutViolation → EvidenceError
  too_few_challenges : String → ℕ → ℕ → EvidenceError
  not_compared : CompareError → EvidenceError
  no_results : EvidenceError

module _ {F : Type 0} where
  -- `[r.metrics[k] for r in results if k in r.metrics]`
  abbrev pub has_metric : String → Metrics F → Bool
  has_metric k m = elem k (map (λ kv. kv.0) m)

  abbrev pub value_before : String → F → Metrics F → List F → List F
  value_before k zero_ m rest = if has_metric k m then get_or k zero_ m ∷ rest else rest

  unfoldable pub values_of : F → String → List (EvaluationResult F) → List F
  values_of z k [] = []
  values_of z k (r ∷ rs) = value_before k z r.metrics (values_of z k rs)

  unfoldable pub per_challenge_metrics : F → List (EvaluationResult F) → Metrics (List F)
  per_challenge_metrics z results =
      map (λ k. (k, values_of z k results)) (sorted_set (all_keys results))

-- `_AGGREGATE_ONLY_KEYS`
abbrev pub aggregate_only_keys : List String
aggregate_only_keys = "cost_usd" ∷ "latency_ms" ∷ "failure_rate" ∷ []

abbrev pub is_metric {ℓ} : {A : Type ℓ} → String × A → Bool
is_metric kv = not (elem kv.0 aggregate_only_keys)

-- A `ValueError` of `compare` and of `aggregate` reaches the caller as it is.
abbrev pub compared_or {ℓ} : {A : Type ℓ} → Result CompareError A → Result EvidenceError A
compared_or (ok a) = ok a
compared_or (err e) = err (not_compared e)

abbrev pub handed_out :
    {F : Type 0}
    → Result HoldoutViolation (HoldoutGuard F × List (Challenge F))
    → Result EvidenceError (List (Challenge F))
handed_out (ok served) = ok served.1
handed_out (err v) = err (used_before v)

module _ (fl : Floats) where
  open fl use {F, ltb}

  unfoldable pub aggregate_from_metrics : String → Metrics F → ℕ → AggregateMetrics F
  aggregate_from_metrics genome_hash metrics n = record {
    genome_hash = genome_hash;
    n_evaluations = n;
    metrics = keep is_metric metrics;
    cost_usd = get_or "cost_usd" (Float.f_zero fl) metrics;
    latency_ms = get_or "latency_ms" (Float.f_zero fl) metrics;
    failure_rate = get_or "failure_rate" (Float.f_zero fl) metrics;
    per_category_quality = [];
  }

  -- The line that the decision's evidence gets is left out.
  unfoldable pub decide_from_evidence :
      HoldoutEvidence F → String → PromotionGateConfig F → SafetyConstraints F → PromotionDecision F
  decide_from_evidence evidence candidate_hash gates constraints =
      evaluate_promotion fl
        (aggregate_from_metrics "baseline" evidence.baseline_metrics evidence.n_holdout)
        (aggregate_from_metrics candidate_hash evidence.candidate_metrics evidence.n_holdout)
        evidence.comparison gates constraints (some evidence.safety)

  abbrev pub qualities : List (EvaluationResult F) → List F
  qualities rs = map (λ r. get_or "quality" (Float.f_zero fl) r.metrics) rs

  module _ (np : Numerics fl) (bootstrap_mean_bound : List F → Side → F → ℕ → F)
      (evaluate : String → Challenge F → EvaluationResult F) where
    abbrev pub safety_of : List (EvaluationResult F) → F → ℕ → SafetyEstimate F
    safety_of results confidence seed =
        let per_challenge = per_challenge_metrics (Float.f_zero fl) results in
        estimate_safety fl bootstrap_mean_bound (get_or "safety_score" [] per_challenge)
          (get_or "policy_compliance" [] per_challenge) confidence seed

    -- What is measured on the challenges that the guard hands out.
    unfoldable pub measure :
        String
        → String
        → DatasetVersion F
        → List (Challenge F)
        → F
        → F
        → ℕ
        → Result EvidenceError (HoldoutEvidence F)
    measure baseline candidate dataset challenges confidence least seed =
        let categories = map (λ c. c.category) challenges in
        let baseline_results = map (evaluate baseline) challenges in
        let candidate_results = map (evaluate candidate) challenges in
        compared_or (
          compare fl np (qualities baseline_results) (qualities candidate_results) least confidence
            seed)
        >>= λ comparison. or_raise (aggregate fl baseline_results categories) no_results >>= λ base.
            or_raise (aggregate fl candidate_results categories) no_results >>= λ cand. ok (record {
              dataset_id = dataset.dataset_id;
              dataset_version = dataset.version;
              baseline_hash = baseline;
              n_holdout = length challenges;
              baseline_metrics = as_dict base;
              candidate_metrics = as_dict cand;
              comparison = comparison;
              safety = safety_of candidate_results confidence seed;
            })

    unfoldable pub evaluate_on_holdout :
        String → String → DatasetVersion F → F → F → ℕ → Result EvidenceError (HoldoutEvidence F)
    evaluate_on_holdout baseline candidate dataset confidence least seed = do
      challenges ← handed_out (
          evaluate_holdout (record { all_challenges = dataset.challenges; accessed_for = [] })
            candidate)
      raise_if (nat_ltb (length challenges) min_holdout_challenges)
          (too_few_challenges dataset.dataset_id dataset.version (length challenges))
      measure baseline candidate dataset challenges confidence least seed
