-- ===== src/Experiments/Run.antt =====
-- The loop of the experiment engine (src/neuroforge/experiments/engine.py, `_run`). A generation either
-- raises, stops the search or leads to the next state; what it saves is the field `saved`.
pub mod Rounds
pub mod Replay
pub mod Bounded
pub mod Best
pub mod Incumbent
pub mod Examples
use neuro_forge.Base.{
  ℕ, zero, suc, ◌+◌, ◌-◌, min, ◌≡◌, String, Bool, true, false, not, ◌&&◌, ◌||◌, Option, none, some,
  List, [], ◌∷◌, ◌++◌, map, length, leb, ltb, nat_eq, if◌then◌else◌, Result, ok, err, ◌>>=◌, ◌>>◌,
  raise_if,
}
use neuro_forge.Base.Float.{Floats}
use neuro_forge.Genomes.Schema.{Fields, SystemGenome}
use neuro_forge.Evaluation.Metrics.{AggregateMetrics}
use neuro_forge.Evaluation.Aggregate.{aggregate}
use neuro_forge.Promotion.Safety.{is_empty}
use neuro_forge.Datasets.{Challenge, DatasetVersion}
use neuro_forge.Datasets.Holdout.{HoldoutGuard, search_set, validation_set}
use neuro_forge.Optimization.Strategy.{Observation, SearchStrategy}
use neuro_forge.Experiments.Budget.{
  BudgetTracker, BudgetReason, BudgetState, new_tracker, from_state, to_state, record_usage,
  exhausted,
}
use neuro_forge.Experiments.Checkpoint.{
  TellBatch, ExperimentCheckpoint, RunStatus, running, completed, cancelled, generations_completed,
  candidates_completed, replay_batches,
}
use neuro_forge.Experiments.Limits.{beats}
use neuro_forge.Experiments.Candidate.{
  ExperimentConfig, Surroundings, EngineError, dataset_changed, dataset_too_small, no_results,
  Scored, evaluate_points, evaluate_candidate,
}

pub data StopReason (F : Type 0) : Type 0 where
  cancelled_by_user max_batches_reached space_exhausted : StopReason F
  budget_exhausted : BudgetReason F → StopReason F
  converged : String → StopReason F

-- The variables of the loop, and the checkpoint that it writes.
pub record Progress (F V State : Type 0) : Type 0 where
  pub strategy : State
  pub tracker : BudgetTracker F
  pub best_genome : SystemGenome V
  pub best_fitness : Option F
  pub best_feasible : Bool
  pub next_version : ℕ
  pub generation_index : ℕ
  pub saved : ExperimentCheckpoint F V

pub data Step (F V State : Type 0) : Type 0 where
  next : Progress F V State → Step F V State
  stop : Progress F V State → StopReason F → Step F V State
  fail : EngineError → Step F V State

module _ (fl : Floats) {V : Type 0} (config : ExperimentConfig fl.F) (env : Surroundings fl.F V)
    (s : SearchStrategy fl.F V) (baseline : SystemGenome V) where
  open fl use {F}

  abbrev pub P : Type 0
  P = Progress F V s.State

  -- The body of the loop over the genomes of a generation, after the evaluation.
  unfoldable pub absorb_one : P → Scored F V → P
  absorb_one p x =
      let better = beats fl x.feasible x.fitness p.best_feasible p.best_fitness in
      record p {
        tracker = record_usage fl p.tracker 1 x.requests x.cost;
        best_genome = if better then x.genome else p.best_genome;
        best_fitness = if better then some x.fitness else p.best_fitness;
        best_feasible = if better then x.feasible else p.best_feasible;
        next_version = p.next_version + 1;
      }

  unfoldable pub absorb : P → List (Scored F V) → P
  absorb p [] = p
  absorb p (x ∷ xs) = absorb (absorb_one p x) xs

  abbrev pub observation : Scored F V → Observation F V
  observation x = record { point = x.point; fitness = x.fitness }

  -- `tell`, and the checkpoint.
  unfoldable pub close_generation : P → List (Observation F V) → P
  close_generation p observations = record p {
    strategy = s.tell p.strategy observations;
    generation_index = p.generation_index + 1;
    saved = record p.saved {
      budget_state = some (to_state fl p.tracker (env.minutes_after p.generation_index));
      tell_batches = p.saved.tell_batches ++ observations ∷ [];
      best_genome = p.best_genome;
      best_fitness = p.best_fitness;
      best_feasible = p.best_feasible;
    };
  }

  -- A plateau ends the search once there is a feasible incumbent.
  unfoldable pub check_convergence : P → Step F V s.State
  check_convergence p = elim (s.convergence p.strategy) [
    | none ↦ next p
    | some reason ↦ if p.best_feasible then stop p (converged reason) else next p
  ]

  unfoldable pub finish_generation : P → List (Scored F V) → P
  finish_generation p scored = close_generation (absorb p scored) (map observation scored)

  module _ (base : AggregateMetrics F) (challenges : List (Challenge F)) where
    -- What is asked for: never more than the budget has left.
    abbrev pub batch_limit : P → ℕ
    batch_limit p = min config.batch_size (config.budget.max_candidates - p.tracker.candidates_used)

    abbrev pub asked : P → P
    asked p = record p { strategy = (s.ask p.strategy (batch_limit p)).0 }

    abbrev pub proposed : P → List (Fields V)
    proposed p = (s.ask p.strategy (batch_limit p)).1

    unfoldable pub generation : P → Step F V s.State
    generation p =
        if is_empty (proposed p)
        then stop (asked p) space_exhausted
        else elim (evaluate_points fl config env baseline base challenges p.generation_index
            p.next_version (proposed p)) [
              | err e ↦ fail e
              | ok scored ↦ check_convergence (finish_generation (asked p) scored)
            ]

    -- One round of `while True`.
    unfoldable pub step : P → Step F V s.State
    step p =
        let rest =
          if leb config.max_batches p.generation_index
          then stop p max_batches_reached
          else generation p in
        let within : Step F V s.State =
          elim (exhausted fl p.tracker (env.minutes p.generation_index)) [
            | some reason ↦ stop p (budget_exhausted reason)
            | none ↦ rest
          ] in
        if env.cancelled p.generation_index then stop p cancelled_by_user else within

    -- The rounds, with fuel; `none` when it is used up.
    unfoldable pub search : ℕ → P → Option (Result EngineError (P × StopReason F))
    search zero p = none
    search (suc fuel) p = elim (step p) [
      | next q ↦ search fuel q
      | stop q reason ↦ some (ok (q, reason))
      | fail e ↦ some (err e)
    ]

  -- The checkpoint of a run that is new.
  unfoldable pub fresh_checkpoint : ℕ → ExperimentCheckpoint F V
  fresh_checkpoint dataset_version = record {
    status = running;
    budget_state = none;
    tell_batches = [];
    best_genome = baseline;
    best_fitness = none;
    best_feasible = false;
    dataset_version = dataset_version;
  }

  abbrev pub first_version : ℕ
  first_version = elim config.first_candidate_version [ some v ↦ v | none ↦ baseline.version + 1 ]

  -- The loop's variables from a checkpoint.
  unfoldable pub resume : ExperimentCheckpoint F V → P
  resume ckpt = record {
    strategy = replay_batches s s.start ckpt.tell_batches;
    tracker = elim ckpt.budget_state [
      | none ↦ new_tracker fl config.budget
      | some state ↦ from_state fl config.budget state
    ];
    best_genome = ckpt.best_genome;
    best_fitness = ckpt.best_fitness;
    best_feasible = ckpt.best_feasible;
    next_version = first_version + candidates_completed ckpt;
    generation_index = generations_completed ckpt;
    saved = record ckpt { status = running };
  }

  abbrev status_of : StopReason F → RunStatus
  status_of cancelled_by_user = cancelled
  status_of _ = completed

  -- From the stored checkpoint, if there is one, to the checkpoint that the run leaves, before the final
  -- comparison.
  unfoldable pub run :
      ℕ
      → Option (ExperimentCheckpoint F V)
      → DatasetVersion F
      → Option (Result EngineError (P × StopReason F))
  run fuel stored dataset =
      let ckpt : ExperimentCheckpoint F V = elim stored [
        | some c ↦ c
        | none ↦ fresh_checkpoint dataset.version
      ] in
      let guard : HoldoutGuard F = record {
        all_challenges = dataset.challenges;
        accessed_for = [];
      } in
      let challenges = search_set guard in
      let n_validation = length (validation_set guard) in
      if not (nat_eq ckpt.dataset_version 0) && not (nat_eq ckpt.dataset_version dataset.version)
      then some (err (dataset_changed ckpt.dataset_version dataset.version))
      else if is_empty challenges || ltb n_validation 2
      then some (err (dataset_too_small (length challenges) n_validation))
      else elim (aggregate fl (map (env.evaluate baseline) challenges)
          (map (λ c. c.category) challenges)) [
            | none ↦ some (err no_results)
            | some base ↦ elim (search base challenges fuel (resume ckpt)) [
              | none ↦ none
              | some (err e) ↦ some (err e)
              | some (ok (p, reason)) ↦
                  some
                    (ok (record p { saved = record p.saved { status = status_of reason } }, reason))
            ]
          ]
