-- ===== src/Promotion/Holdout/Decided.antt =====
-- When a candidate can be measured on the holdout, and what is decided from the measurement
-- (src/neuroforge/promotion/holdout.py).
use neuro_forge.Base.{
  ℕ, String, false, some, List, [], ◌∷◌, map, keep, length, length-map, elem, ltb as nat_ltb,
  leb as nat_leb, nat_eq_iff, ◌==◌, if◌then◌else◌, ok, ◌>>◌, raise_if, is_ok, Succeeds, ◌≡◌, refl,
  sym, ◌∙◌, eq_iff, arith, Bool-cases, inl, inr,
}
use neuro_forge.Base.Float.{Floats}
use neuro_forge.Evaluation.Metrics.{
  Metrics, get_or, put, EvaluationResult, AggregateMetrics, as_dict, ComparisonResult,
}
use neuro_forge.Evaluation.Aggregate.{aggregate}
use neuro_forge.Evaluation.Statistics.{Numerics, compare, compared}
use neuro_forge.Promotion.Safety.{SafetyConstraints, SafetyEstimate, Side}
use neuro_forge.Promotion.Gates.{
  PromotionGateConfig, evaluate_promotion, quality_of, safety_verdict, safety_magnitude,
  safety_findings, metric_gate_findings, guard_fires, promotion_reasons,
}
use neuro_forge.Promotion.Holdout.{
  HoldoutEvidence, is_metric, aggregate_only_keys, aggregate_from_metrics, decide_from_evidence,
  measure, evaluate_on_holdout, qualities, safety_of, too_few_challenges,
}
use neuro_forge.Datasets.{Challenge, DatasetVersion, split_of}
use neuro_forge.Datasets.Holdout.{evaluate_holdout}

module _ {F : Type 0} where
  get_or-put :
      (k j : String) (d v : F) (m : Metrics F)
      → get_or k d (put j v m) ≡ (if j == k then v else get_or k d m)
  unfolding get_or put
  get_or-put k j d v [] = refl
  get_or-put k j d v ((i, w) ∷ m) =
      ground (arith, get_or-put k j d v m, eq_iff i j, eq_iff i k, eq_iff j k)

  -- A metric is read as if the fields of the aggregate were not in the dict.
  get_or-keep :
      (k : String) (d : F) (m : Metrics F)
      → elem k aggregate_only_keys ≡ false
      → get_or k d (keep is_metric m) ≡ get_or k d m
  unfolding get_or
  get_or-keep k d [] h = refl
  get_or-keep k d ((i, w) ∷ m) h = ground (
    arith,
    get_or-keep k d m h,
    eq_iff i k,
    eq_iff i "cost_usd",
    eq_iff i "latency_ms",
    eq_iff i "failure_rate",
    eq_iff k "cost_usd",
    eq_iff k "latency_ms",
    eq_iff k "failure_rate",
  )

module _ (fl : Floats) where
  open fl use {F}

  -- The dict of an aggregate gives its quality, cost and latency back.
  quality-back :
      (agg : AggregateMetrics F) (h : String) (n : ℕ)
      → quality_of fl (aggregate_from_metrics fl h (as_dict agg) n) ≡ quality_of fl agg
  unfolding aggregate_from_metrics as_dict
  quality-back agg h n =
      get_or-keep "quality" _ _ refl
      ∙ get_or-put "quality" "failure_rate" _ _ _
      ∙ get_or-put "quality" "latency_ms" _ _ _
      ∙ get_or-put "quality" "cost_usd" _ _ _

  cost-back :
      (agg : AggregateMetrics F) (h : String) (n : ℕ)
      → (aggregate_from_metrics fl h (as_dict agg) n).cost_usd ≡ agg.cost_usd
  unfolding aggregate_from_metrics as_dict
  cost-back agg h n =
      get_or-put "cost_usd" "failure_rate" _ agg.failure_rate
        (put "latency_ms" agg.latency_ms (put "cost_usd" agg.cost_usd agg.metrics))
      ∙ get_or-put "cost_usd" "latency_ms" _ agg.latency_ms
          (put "cost_usd" agg.cost_usd agg.metrics)
      ∙ get_or-put "cost_usd" "cost_usd" _ agg.cost_usd agg.metrics

  latency-back :
      (agg : AggregateMetrics F) (h : String) (n : ℕ)
      → (aggregate_from_metrics fl h (as_dict agg) n).latency_ms ≡ agg.latency_ms
  unfolding aggregate_from_metrics as_dict
  latency-back agg h n =
      get_or-put "latency_ms" "failure_rate" _ agg.failure_rate
        (put "latency_ms" agg.latency_ms (put "cost_usd" agg.cost_usd agg.metrics))
      ∙ get_or-put "latency_ms" "latency_ms" _ agg.latency_ms
          (put "cost_usd" agg.cost_usd agg.metrics)

  -- A verdict at confidence bounds reads the quality, the cost and the latency of the aggregates alone.
  evaluate_promotion-back :
      (base cand : AggregateMetrics F) (h : String) (m n : ℕ) (comparison : ComparisonResult F)
      (gates : PromotionGateConfig F) (limits : SafetyConstraints F) (e : SafetyEstimate F)
      → evaluate_promotion fl
          (aggregate_from_metrics fl "baseline" (as_dict base) m)
          (aggregate_from_metrics fl h (as_dict cand) n)
          comparison
          gates
          limits
          (some e)
        ≡ evaluate_promotion fl base cand comparison gates limits (some e)
  unfolding evaluate_promotion promotion_reasons metric_gate_findings guard_fires safety_findings
      safety_magnitude safety_verdict
  evaluate_promotion-back base cand h m n comparison gates limits e =
      rw
        (
          quality-back base "baseline" m,
          quality-back cand h n,
          cost-back base "baseline" m,
          cost-back cand h n,
          latency-back base "baseline" m,
          latency-back cand h n,
        )
        refl

  module _ (np : Numerics fl) (bound : List F → Side → F → ℕ → F)
      (evaluate : String → Challenge F → EvaluationResult F) (baseline candidate : String)
      (dataset : DatasetVersion F) (confidence least : F) (seed : ℕ) where
    abbrev categories : List (Challenge F) → List String
    categories cs = map (λ c. c.category) cs

    compare-paired :
        (bs cs : List F)
        → length bs ≡ length cs
        → nat_ltb (length bs) 2 ≡ false
        → compare fl np bs cs least confidence seed
          ≡ ok (compared fl np bs cs least confidence seed)
    unfolding compare
    compare-paired bs cs same enough = rw ((nat_eq_iff (length bs) (length cs)).1 same, enough) refl

    abbrev comparison_on : List (Challenge F) → ComparisonResult F
    comparison_on cs =
        compared fl np (qualities fl (map (evaluate baseline) cs))
          (qualities fl (map (evaluate candidate) cs)) least confidence seed

    compare-results :
        (cs : List (Challenge F))
        → nat_ltb (length cs) 10 ≡ false
        → compare fl np
            (qualities fl (map (evaluate baseline) cs))
            (qualities fl (map (evaluate candidate) cs))
            least
            confidence
            seed
          ≡ ok (comparison_on cs)
    compare-results cs h =
        compare-paired (qualities fl (map (evaluate baseline) cs))
          (qualities fl (map (evaluate candidate) cs))
          (lengths cs baseline ∙ sym (lengths cs candidate)) (ground (arith, lengths cs baseline))
      where
        lengths :
            (cs : List (Challenge F)) (g : String)
            → length (qualities fl (map (evaluate g) cs)) ≡ length cs
        lengths cs g = length-map _ _ ∙ length-map cs (evaluate g)

    module _ (gates : PromotionGateConfig F) (limits : SafetyConstraints F)
        (base cand : AggregateMetrics F) where
      -- What is decided from the evidence is what the gates say of the two aggregates, of the candidate's
      -- qualities compared with the baseline's, and of the safety of the candidate's results.
      abbrev pub DecidesAs : List (Challenge F) → HoldoutEvidence F → Type 0
      DecidesAs cs ev =
          decide_from_evidence fl ev candidate gates limits
          ≡ evaluate_promotion fl base cand (comparison_on cs) gates limits
              (some (safety_of fl np bound evaluate (map (evaluate candidate) cs) confidence seed))

      measure-DecidesAs :
          (cs : List (Challenge F))
          → nat_ltb (length cs) 10 ≡ false
          → aggregate fl (map (evaluate baseline) cs) (categories cs) ≡ some base
          → aggregate fl (map (evaluate candidate) cs) (categories cs) ≡ some cand
          → Succeeds
              (DecidesAs cs)
              (measure fl np bound evaluate baseline candidate dataset cs confidence least seed)
      unfolding measure decide_from_evidence
      measure-DecidesAs cs enough b c =
          rw (compare-results cs enough, b, c)
            (evaluate_promotion-back base cand candidate (length cs) (length cs) (comparison_on cs)
              gates limits _)

      -- A candidate is measured if the holdout has at least 10 challenges, and the decision from the
      -- stored evidence is the one that the gates take on the aggregates of the two genomes there, on
      -- the comparison of the candidate's qualities with the baseline's, and on the safety estimate of
      -- the candidate's results.
      pub evaluate_on_holdout-DecidesAs :
          nat_ltb (length (split_of dataset "holdout")) 10 ≡ false
          → aggregate fl
              (map (evaluate baseline) (split_of dataset "holdout"))
              (categories (split_of dataset "holdout"))
            ≡ some base
          → aggregate fl
              (map (evaluate candidate) (split_of dataset "holdout"))
              (categories (split_of dataset "holdout"))
            ≡ some cand
          → Succeeds (DecidesAs (split_of dataset "holdout")) (
              evaluate_on_holdout fl np bound evaluate baseline candidate dataset confidence least
                seed)
      unfolding evaluate_on_holdout evaluate_holdout split_of
      evaluate_on_holdout-DecidesAs enough b c = rw enough (measure-DecidesAs _ enough b c)

    -- A measurement fails exactly when the holdout has fewer than 10 challenges.
    pub is_ok-evaluate_on_holdout :
        is_ok (
          evaluate_on_holdout fl np bound evaluate baseline candidate dataset confidence least seed)
        ≡ nat_leb 10 (length (split_of dataset "holdout"))
    unfolding evaluate_on_holdout evaluate_holdout split_of measure aggregate
    is_ok-evaluate_on_holdout = by_size (split_of dataset "holdout")
      where
        by_size :
            (cs : List (Challenge F))
            → is_ok (
                raise_if
                  (nat_ltb (length cs) 10)
                  (too_few_challenges dataset.dataset_id dataset.version (length cs))
                >> measure fl np bound evaluate baseline candidate dataset cs confidence least seed)
              ≡ nat_leb 10 (length cs)
        by_size [] = refl
        by_size (c ∷ cs) = elim (Bool-cases (nat_ltb (length (c ∷ cs)) 10)) [
          | inl few ↦ rw few (ground arith)
          | inr enough ↦ rw (enough, compare-results (c ∷ cs) enough) (ground arith)
        ]
