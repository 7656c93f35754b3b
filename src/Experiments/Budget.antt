-- ===== src/Experiments/Budget.antt =====
-- The budget of an experiment (src/neuroforge/experiments/budget.py). The minutes since the tracker was
-- made are an argument, as the clock is read from outside.
use neuro_forge.Base.{ℕ, ◌+◌, Option, none, some, leb, if◌then◌else◌}
use neuro_forge.Base.Float
use neuro_forge.Base.Float.{Floats}

pub record ExperimentBudget (F : Type 0) : Type 0 where
  pub max_candidates : ℕ
  pub max_requests : ℕ
  pub max_cost_usd : F
  pub max_duration_minutes : F

pub record BudgetTracker (F : Type 0) : Type 0 where
  pub budget : ExperimentBudget F
  pub candidates_used : ℕ
  pub requests_used : ℕ
  pub cost_used : F
  pub prior_elapsed_minutes : F

-- What a checkpoint stores of a tracker.
pub record BudgetState (F : Type 0) : Type 0 where
  pub candidates_used : ℕ
  pub requests_used : ℕ
  pub cost_used : F
  pub elapsed_minutes : F

-- The first limit that is reached.
pub data BudgetReason (F : Type 0) : Type 0 where
  max_candidates_reached max_requests_reached : ℕ → BudgetReason F
  max_cost_reached max_duration_reached : F → BudgetReason F

module _ (fl : Floats) where
  open fl use {F, add, div, ltb}

  -- `BudgetTracker(budget=budget)`
  unfoldable pub new_tracker : ExperimentBudget F → BudgetTracker F
  new_tracker budget = record {
    budget = budget;
    candidates_used = 0;
    requests_used = 0;
    cost_used = Float.f_zero fl;
    prior_elapsed_minutes = Float.f_zero fl;
  }

  -- `record`
  unfoldable pub record_usage : BudgetTracker F → ℕ → ℕ → F → BudgetTracker F
  record_usage t candidates requests cost = record t {
    candidates_used = t.candidates_used + candidates;
    requests_used = t.requests_used + requests;
    cost_used = add t.cost_used cost;
  }

  unfoldable pub elapsed_minutes : BudgetTracker F → F → F
  elapsed_minutes t since = add t.prior_elapsed_minutes since

  unfoldable pub exhausted : BudgetTracker F → F → Option (BudgetReason F)
  exhausted t since =
      if leb t.budget.max_candidates t.candidates_used
      then some (max_candidates_reached t.budget.max_candidates)
      else if leb t.budget.max_requests t.requests_used
      then some (max_requests_reached t.budget.max_requests)
      else if Float.leb fl t.budget.max_cost_usd t.cost_used
      then some (max_cost_reached t.budget.max_cost_usd)
      else if Float.leb fl t.budget.max_duration_minutes (elapsed_minutes t since)
      then some (max_duration_reached t.budget.max_duration_minutes)
      else none

  unfoldable pub to_state : BudgetTracker F → F → BudgetState F
  to_state t since = record {
    candidates_used = t.candidates_used;
    requests_used = t.requests_used;
    cost_used = t.cost_used;
    elapsed_minutes = elapsed_minutes t since;
  }

  unfoldable pub from_state : ExperimentBudget F → BudgetState F → BudgetTracker F
  from_state budget s = record {
    budget = budget;
    candidates_used = s.candidates_used;
    requests_used = s.requests_used;
    cost_used = s.cost_used;
    prior_elapsed_minutes = s.elapsed_minutes;
  }
