-- ===== src/Experiments/Run/Examples.antt =====
-- A grid search over two values of one field, on one challenge, in fixed-point numbers.
use neuro_forge.Base.{
  refl, ℕ, ◌+◌, List, ◌≡◌, true, false, none, some, [], ◌∷◌, All, length, Returns, Result, nat_eq,
  arith,
}
use neuro_forge.Base.Int.{ℤ, pos, ◌+ℤ◌}
use neuro_forge.Base.Float.Fixed.{fixed, fixed-Laws}
use neuro_forge.Genomes.{generated}
use neuro_forge.Genomes.Schema.{SystemGenome, derive, get_field, set_field, deep_set}
use neuro_forge.Mutations.Policy.{MutationPolicy, is_allowed}
use neuro_forge.Evaluation.Metrics.{EvaluationResult}
use neuro_forge.Datasets.{Challenge}
use neuro_forge.Optimization.Strategy.{SearchStrategy, StrategyLaws}
use neuro_forge.Optimization.Grid.{
  GridSpace, grid_size, iter_grid, length-iter_grid, grid_search, grid_search-StrategyLaws,
  grid_ask, grid_tell, grid_convergence, with_values,
}
use neuro_forge.Promotion.Examples.{baseline, default_gates, default_limits}
use neuro_forge.Experiments.Budget.{new_tracker, exhausted, elapsed_minutes}
use neuro_forge.Experiments.Candidate.{
  ExperimentConfig, Surroundings, EngineError, Scored, evaluate_points, check_points, derive_points,
  mutation_records, score_candidates, score_candidate, evaluate_candidate,
}
use neuro_forge.Experiments.Checkpoint.{replay_batches, generations_completed, candidates_completed}
use neuro_forge.Evaluation.Aggregate.{aggregate}
use neuro_forge.Experiments.Candidate.Allowed.{Fits, evaluate_points-Fits}
use neuro_forge.Experiments.Run.{
  Progress, StopReason, Step, next, stop, fail, resume, fresh_checkpoint, search, absorb,
  absorb_one, close_generation, step, generation, check_convergence, finish_generation,
}
use neuro_forge.Experiments.Run.Bounded.{IsWithin, search-IsWithin, search_terminates}
use neuro_forge.Experiments.Run.Replay.{IsResumable, begin, round, Reached-IsResumable}
use neuro_forge.Experiments.Run.Incumbent.{BestFits, search-BestFits}
use neuro_forge.Experiments.Run.Best.{IsFrom, IsTopped, absorb-best}

abbrev space : GridSpace ℕ
space = ("retrieval.top_k", 3 ∷ 5 ∷ []) ∷ ("agent.max_iterations", 1 ∷ 2 ∷ 3 ∷ []) ∷ []

length-iter_grid_example : length (iter_grid space) ≡ grid_size space
length-iter_grid_example = length-iter_grid space

abbrev policy : MutationPolicy
policy = record {
  max_changes_per_candidate = 3;
  allowed = "retrieval.top_k" ∷ "agent.max_iterations" ∷ [];
  forbidden = "system_id" ∷ [];
  forbidden_combinations = [];
}

abbrev config : ExperimentConfig ℤ
config = record {
  search_strategy = "grid_search";
  objectives = [];
  budget = record {
    max_candidates = 4;
    max_requests = 5000;
    max_cost_usd = pos 10000000;
    max_duration_minutes = pos 30000000;
  };
  batch_size = 3;
  max_batches = 15;
  safety_constraints = default_limits;
  promotion_gates = default_gates;
  mutation_policy = policy;
  evaluation_timeout_seconds = none;
  first_candidate_version = none;
  search_safety_margin = pos 30000;
  search_quality_margin = pos 20000;
  constraint_penalty = pos 10000000;
}

abbrev start : SystemGenome ℕ
start = record {
  system_id = "forge";
  version = 1;
  parent_hash = none;
  mutations = [];
  generation = 0;
  status = generated;
  fields =
      ("retrieval.top_k", 5) ∷ ("agent.max_iterations", 1) ∷ ("retrieval.chunk_size", 600) ∷ [];
}

abbrev answer : SystemGenome ℕ → Challenge ℤ → EvaluationResult ℤ
answer g c = record {
  challenge_id = c.challenge_id;
  genome_hash = g.system_id;
  metrics = ("quality", pos 700000) ∷ ("safety_score", pos 960000) ∷ [];
  cost_usd = pos 400;
  latency_ms = pos 335000000;
  failed = false;
}

abbrev env : Surroundings ℤ ℕ
env = record {
  hash = λ id fields. id;
  in_range = λ fields. true;
  same_value = nat_eq;
  evaluate = answer;
  finishes = λ g. true;
  cancelled = λ n. false;
  minutes = λ n. pos n;
  minutes_after = λ n. pos (n + 1);
}

abbrev challenges : List (Challenge ℤ)
challenges =
    record { challenge_id = "fs-1"; category = "billing"; difficulty = pos 300000; split = "train" }
    ∷ []

abbrev grid : SearchStrategy ℤ ℕ
grid = grid_search space

abbrev at_start : Progress ℤ ℕ (grid.State)
at_start = resume fixed config env grid start (fresh_checkpoint fixed config env grid start 1)

search-IsWithin_example :
    (o : Result EngineError (Progress ℤ ℕ (grid.State) × StopReason ℤ)) × (search fixed config env
        grid start baseline challenges 16 at_start
      ≡ some o)
    × Returns (λ qr. IsWithin fixed config env grid start qr.0) o
unfolding resume fresh_checkpoint new_tracker
search-IsWithin_example =
    search-IsWithin fixed config env grid start (grid_search-StrategyLaws space) baseline challenges
      16 at_start (omega arith) (omega arith)

search-BestFits_example :
    (o : Result EngineError (Progress ℤ ℕ (grid.State) × StopReason ℤ)) × (search fixed config env
        grid start baseline challenges 16 at_start
      ≡ some o)
    × Returns (λ qr. BestFits fixed config env grid start qr.0) o
unfolding resume fresh_checkpoint
search-BestFits_example =
    search-BestFits fixed config env grid start baseline challenges 16 at_start (omega arith)
      (λ path n. refl)

search_terminates_example :
    (o : Result EngineError (Progress ℤ ℕ (grid.State) × StopReason ℤ)) × (search fixed config env
        grid start baseline challenges 16 at_start
      ≡ some o)
unfolding resume fresh_checkpoint
search_terminates_example =
    search_terminates fixed config env grid start baseline challenges 16 at_start (omega arith)

-- Where a round goes on from.
abbrev went_on : Step ℤ ℕ (grid.State) → Progress ℤ ℕ (grid.State)
went_on (next q) = q
went_on (stop q reason) = q
went_on (fail e) = at_start

-- The search after its first generation of three candidates.
abbrev after_round : Progress ℤ ℕ (grid.State)
after_round = went_on (step fixed config env grid start baseline challenges at_start)

first_round : step fixed config env grid start baseline challenges at_start ≡ next after_round
unfolding step generation resume fresh_checkpoint new_tracker exhausted evaluate_points check_points
    derive_points derive mutation_records get_field set_field deep_set is_allowed score_candidates
    score_candidate evaluate_candidate aggregate grid_search grid_ask grid_convergence iter_grid
    with_values check_convergence elapsed_minutes finish_generation replay_batches
    generations_completed candidates_completed ◌+ℤ◌ close_generation grid_tell absorb absorb_one
    grid_size
first_round = refl

Reached-IsResumable_example : IsResumable fixed config env grid start after_round
Reached-IsResumable_example =
    Reached-IsResumable fixed config env grid start (grid_search-StrategyLaws space) baseline
      challenges (fresh_checkpoint fixed config env grid start 1) after_round
      (round at_start after_round begin first_round)

abbrev scored : List (Scored ℤ ℕ)
scored =
    record {
      genome = start;
      point = [];
      fitness = pos 500000;
      feasible = true;
      timed_out = false;
      requests = 1;
      cost = pos 400;
    }
    ∷ record {
      genome = start;
      point = [];
      fitness = pos 900000;
      feasible = false;
      timed_out = false;
      requests = 1;
      cost = pos 400;
    }
    ∷ []

absorb-best_example :
    let q = absorb fixed config env grid start at_start scored in
    IsFrom fixed fixed-Laws config env grid start at_start scored q
    × All (λ x. IsTopped fixed fixed-Laws config env grid start q x) scored
absorb-best_example = absorb-best fixed fixed-Laws config env grid start at_start scored

evaluate_points-Fits_example :
    Returns
      (All (λ x. Fits fixed config env start x.genome))
      (evaluate_points fixed config env start baseline challenges 0 2 (iter_grid space))
evaluate_points-Fits_example =
    evaluate_points-Fits fixed config env start baseline challenges 0 2 (iter_grid space)

grid_search-StrategyLaws_example : StrategyLaws grid
grid_search-StrategyLaws_example = grid_search-StrategyLaws space
