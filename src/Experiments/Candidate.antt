-- ===== src/Experiments/Candidate.antt =====
-- The candidates of one generation and their scores (src/neuroforge/experiments/engine.py, `_run` and
-- `_evaluate_candidate`).
pub mod Allowed
use Prim.Native.String.{◌++◌}
use neuro_forge.Base.{
  ℕ, ◌+◌, suc, String, Bool, true, false, not, Option, none, some, List, [], ◌∷◌, map, keep, length,
  if◌then◌else◌, Result, ok, err, ◌>>=◌, ◌>>◌, raise_if, or_raise,
}
use neuro_forge.Base.Float
use neuro_forge.Base.Float.{Floats}
use neuro_forge.Genomes.Schema.{Fields, SystemGenome, MutationRecord, get_field, derive}
use neuro_forge.Mutations.Policy.{MutationPolicy, is_allowed}
use neuro_forge.Evaluation.Metrics.{Metrics, EvaluationResult, AggregateMetrics, as_dict}
use neuro_forge.Evaluation.Aggregate.{aggregate}
use neuro_forge.Evaluation.Objectives.{ObjectiveSpec, score}
use neuro_forge.Promotion.Safety.{SafetyConstraints, is_empty, tightened}
use neuro_forge.Promotion.Gates.{PromotionGateConfig}
use neuro_forge.Datasets.{Challenge}
use neuro_forge.Optimization.Strategy.{Observation}
use neuro_forge.Experiments.Budget.{ExperimentBudget}
use neuro_forge.Experiments.Limits.{search_gates, violation_of, is_feasible, shaped_fitness}

pub record ExperimentConfig (F : Type 0) : Type 0 where
  pub search_strategy : String
  pub objectives : ObjectiveSpec F
  pub budget : ExperimentBudget F
  pub batch_size : ℕ
  pub max_batches : ℕ
  pub safety_constraints : SafetyConstraints F
  pub promotion_gates : PromotionGateConfig F
  pub mutation_policy : MutationPolicy
  pub evaluation_timeout_seconds : Option F
  pub first_candidate_version : Option ℕ
  pub search_safety_margin : F
  pub search_quality_margin : F
  pub constraint_penalty : F

-- What a run meets: the content hash, the ranges and the equality of values, the domain's evaluation of
-- a genome on a challenge, whether it finishes in time, and, at the check before each generation, the
-- cancel file and the minutes since the start; `minutes_after` is the clock after the generation.
pub record Surroundings (F V : Type 0) : Type 0 where
  pub hash : String → Fields V → String
  pub in_range : Fields V → Bool
  pub same_value : V → V → Bool
  pub evaluate : SystemGenome V → Challenge F → EvaluationResult F
  pub finishes : SystemGenome V → Bool
  pub cancelled : ℕ → Bool
  pub minutes : ℕ → F
  pub minutes_after : ℕ → F

pub data EngineError : Type 0 where
  dataset_changed dataset_too_small : ℕ → ℕ → EngineError
  disallowed_fields : List String → EngineError
  unknown_field : String → EngineError
  value_out_of_range no_results : EngineError

-- One evaluated candidate, as the loop goes on with it.
pub record Scored (F V : Type 0) : Type 0 where
  pub genome : SystemGenome V
  pub point : Fields V
  pub fitness : F
  pub feasible : Bool
  pub timed_out : Bool
  pub requests : ℕ
  pub cost : F

module _ {V : Type 0} where
  unfoldable pub check_points : MutationPolicy → List (Fields V) → Result EngineError (Unit {0})
  check_points policy [] = ok tt
  check_points policy (p ∷ ps) =
      let disallowed = keep (λ f. not (is_allowed policy f)) (map (λ kv. kv.0) p) in
      raise_if (not (is_empty disallowed)) (disallowed_fields disallowed) >> check_points policy ps

  -- A record for each value that differs from the baseline's.
  unfoldable pub mutation_records :
      (V → V → Bool) → String → Fields V → Fields V → Result EngineError (List (MutationRecord V))
  mutation_records same strategy fields [] = ok []
  mutation_records same strategy fields ((path, value) ∷ point) = elim (get_field fields path) [
    | none ↦ err (unknown_field path)
    | some old ↦ mutation_records same strategy fields point >>= λ rest. ok (
        if same old value
        then rest
        else record {
          mutation_type = strategy ++ ".propose";
          field_path = path;
          old_value = some old;
          new_value = value;
        }
          ∷ rest)
  ]

module _ (fl : Floats) {V : Type 0} (config : ExperimentConfig fl.F)
    (env : Surroundings fl.F V) where
  open fl use {F, mul}

  -- The genomes for the points, numbered from `version`.
  unfoldable pub derive_points :
      SystemGenome V
      → ℕ
      → ℕ
      → List (Fields V)
      → Result EngineError (List (SystemGenome V × Fields V))
  derive_points baseline generation version [] = ok []
  derive_points baseline generation version (p ∷ ps) = do
    records ← mutation_records env.same_value config.search_strategy baseline.fields p
    child ←
        or_raise
          (derive env.hash env.in_range baseline records p version
            (some (baseline.generation + 1 + generation)))
          value_out_of_range
    rest ← derive_points baseline generation (version + 1) ps
    ok ((child, p) ∷ rest)

  -- The score of a candidate that did not finish in time.
  abbrev worst_result : SystemGenome V → F → Challenge F → EvaluationResult F
  worst_result genome timeout c = record {
    challenge_id = c.challenge_id;
    genome_hash = env.hash genome.system_id genome.fields;
    metrics = ("quality", Float.f_zero fl) ∷ [];
    cost_usd = Float.f_zero fl;
    latency_ms = mul timeout (Float.of_nat fl 1000);
    failed = true;
  }

  unfoldable pub evaluate_candidate :
      SystemGenome V → List (Challenge F) → List (EvaluationResult F) × Bool
  evaluate_candidate genome challenges = elim config.evaluation_timeout_seconds [
    | none ↦ (map (env.evaluate genome) challenges, false)
    | some timeout ↦
        if env.finishes genome
        then (map (env.evaluate genome) challenges, false)
        else (map (worst_result genome timeout) challenges, true)
  ]

  unfoldable pub objective_scales : AggregateMetrics F → Metrics F
  objective_scales base =
      ("cost_usd", Float.max fl (mul (Float.of_nat fl 2) base.cost_usd) (fl.dec 1 9))
      ∷ ("latency_ms", Float.max fl (mul (Float.of_nat fl 2) base.latency_ms) (fl.dec 1 6))
      ∷ ("failure_rate", Float.f_one fl)
      ∷ []

  abbrev categories_of : List (Challenge F) → List String
  categories_of cs = map (λ c. c.category) cs

  -- The limits that the search aims at.
  abbrev violation : AggregateMetrics F → AggregateMetrics F → F
  violation base agg =
      violation_of fl base agg (search_gates fl config.promotion_gates config.search_quality_margin)
        (tightened fl config.safety_constraints config.search_safety_margin)

  unfoldable pub score_candidate :
      AggregateMetrics F
      → List (Challenge F)
      → SystemGenome V × Fields V
      → Result EngineError (Scored F V)
  score_candidate base challenges (genome, point) =
      let (results, timed_out) = evaluate_candidate genome challenges in
      or_raise (aggregate fl results (categories_of challenges)) no_results >>= λ agg. ok (record {
        genome = genome;
        point = point;
        fitness =
            shaped_fitness fl (score fl config.objectives (as_dict agg) (objective_scales base))
              config.constraint_penalty (violation base agg) timed_out;
        feasible = is_feasible fl (violation base agg) timed_out;
        timed_out = timed_out;
        requests = length challenges;
        cost = Float.sum fl (map (λ r. r.cost_usd) results);
      })

  unfoldable pub score_candidates :
      AggregateMetrics F
      → List (Challenge F)
      → List (SystemGenome V × Fields V)
      → Result EngineError (List (Scored F V))
  score_candidates base challenges [] = ok []
  score_candidates base challenges (gp ∷ gps) = do
    x ← score_candidate base challenges gp
    xs ← score_candidates base challenges gps
    ok (x ∷ xs)

  -- From the points of a generation to its scored candidates.
  unfoldable pub evaluate_points :
      SystemGenome V
      → AggregateMetrics F
      → List (Challenge F)
      → ℕ
      → ℕ
      → List (Fields V)
      → Result EngineError (List (Scored F V))
  evaluate_points baseline base challenges generation version points = do
    check_points config.mutation_policy points
    genomes ← derive_points baseline generation version points
    score_candidates base challenges genomes
