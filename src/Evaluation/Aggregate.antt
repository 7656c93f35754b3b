-- ===== src/Evaluation/Aggregate.antt =====
-- The aggregate of a genome's evaluations (src/neuroforge/evaluation/aggregate.py). The categories, where
-- given, are as many as the results: a list of them that is longer raises IndexError in the source.
use Prim.Native.String.{compare}
use text.Mathlib.Text.{is_lt}
use neuro_forge.Base.{
  String, Option, none, some, List, [], ◌∷◌, ◌++◌, map, keep, length, ◌==◌, if◌then◌else◌,
}
use neuro_forge.Base.Float
use neuro_forge.Base.Float.{Floats}
use neuro_forge.Evaluation.Metrics.{Metrics, get_or, EvaluationResult, AggregateMetrics}

-- A name is put where it belongs among names in order, unless it is there.
unfoldable pub insert_name : String → List String → List String
insert_name k [] = k ∷ []
insert_name k (x ∷ xs) =
    let rest = insert_name k xs in
    if k == x then x ∷ xs else if is_lt (compare k x) then k ∷ x ∷ xs else x ∷ rest

-- `sorted(set(names))`
unfoldable pub sorted_set : List String → List String
sorted_set [] = []
sorted_set (k ∷ ks) = insert_name k (sorted_set ks)

module _ {F : Type 0} where
  abbrev pub keys : Metrics F → List String
  keys m = map (λ kv. kv.0) m

  unfoldable pub all_keys : List (EvaluationResult F) → List String
  all_keys [] = []
  all_keys (r ∷ rs) = keys r.metrics ++ all_keys rs

  unfoldable pub in_category :
      String → List String → List (EvaluationResult F) → List (EvaluationResult F)
  in_category cat [] rs = []
  in_category cat (c ∷ cs) [] = []
  in_category cat (c ∷ cs) (r ∷ rs) =
      let rest = in_category cat cs rs in if c == cat then r ∷ rest else rest

module _ (fl : Floats) where
  open fl use {F, div, round_to}

  -- `sum(f(r) for r in results) / len(results)`
  unfoldable pub mean_of : (EvaluationResult F → F) → List (EvaluationResult F) → F
  mean_of f rs = div (Float.sum fl (map f rs)) (Float.float_of_length fl rs)

  abbrev pub metric_mean : List (EvaluationResult F) → String → F
  metric_mean rs k = mean_of (λ r. get_or k (Float.f_zero fl) r.metrics) rs

  abbrev pub failed_part : List (EvaluationResult F) → F
  failed_part rs =
      div (Float.float_of_length fl (keep (λ r. r.failed) rs)) (Float.float_of_length fl rs)

  unfoldable pub category_quality : List String → List (EvaluationResult F) → Metrics F
  category_quality categories rs =
      map (λ cat. (cat, round_to 4 (metric_mean (in_category cat categories rs) "quality")))
        (sorted_set categories)

  -- `none` is the ValueError on no results; no categories are the empty list.
  unfoldable pub aggregate : List (EvaluationResult F) → List String → Option (AggregateMetrics F)
  aggregate [] categories = none
  aggregate (r ∷ rs) categories =
      let results = r ∷ rs in
      some (record {
        genome_hash = r.genome_hash;
        n_evaluations = length results;
        metrics =
            map (λ k. (k, round_to 4 (metric_mean results k))) (sorted_set (all_keys results));
        cost_usd = round_to 6 (mean_of (λ x. x.cost_usd) results);
        latency_ms = round_to 2 (mean_of (λ x. x.latency_ms) results);
        failure_rate = round_to 4 (failed_part results);
        per_category_quality = category_quality categories results;
      })
