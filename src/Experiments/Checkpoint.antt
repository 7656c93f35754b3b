-- ===== src/Experiments/Checkpoint.antt =====
-- What a run stores after each generation, and the replay by which it resumes
-- (src/neuroforge/experiments/checkpoint.py; the replay is in engine.py, `_run`).
use neuro_forge.Base.{ℕ, ◌+◌, Bool, Option, List, [], ◌∷◌, length}
use neuro_forge.Genomes.Schema.{SystemGenome}
use neuro_forge.Optimization.Strategy.{Observation, SearchStrategy}
use neuro_forge.Experiments.Budget.{BudgetState}

-- The points of one `tell` with their fitness: two lists of one length, kept as pairs.
abbrev pub TellBatch : Type 0 → Type 0 → Type 0
TellBatch F V = List (Observation F V)

pub data RunStatus : Type 0 where
  running completed cancelled : RunStatus

-- No budget state is the empty dict, and no best fitness is minus infinity. A checkpoint has a best
-- genome from its first save on.
pub record ExperimentCheckpoint (F V : Type 0) : Type 0 where
  pub status : RunStatus
  pub budget_state : Option (BudgetState F)
  pub tell_batches : List (TellBatch F V)
  pub best_genome : SystemGenome V
  pub best_fitness : Option F
  pub best_feasible : Bool
  pub dataset_version : ℕ

module _ {F V : Type 0} where
  unfoldable pub generations_completed : ExperimentCheckpoint F V → ℕ
  generations_completed c = length c.tell_batches

  unfoldable pub points_of : List (TellBatch F V) → ℕ
  points_of [] = 0
  points_of (b ∷ bs) = length b + points_of bs

  unfoldable pub candidates_completed : ExperimentCheckpoint F V → ℕ
  candidates_completed c = points_of c.tell_batches

  -- One batch told again: `replay_ask(len(batch.points))`, then `tell`.
  unfoldable pub replay_batch : (s : SearchStrategy F V) → s.State → TellBatch F V → s.State
  replay_batch s t b = s.tell (s.replay_ask t (length b)) b

  unfoldable pub replay_batches :
      (s : SearchStrategy F V) → s.State → List (TellBatch F V) → s.State
  replay_batches s t [] = t
  replay_batches s t (b ∷ bs) = replay_batches s (replay_batch s t b) bs
