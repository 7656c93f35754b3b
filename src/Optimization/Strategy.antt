-- ===== src/Optimization/Strategy.antt =====
-- What every search strategy offers (src/neuroforge/optimization/strategy.py).
use neuro_forge.Base.{
  ℕ, ◌+◌, ◌-◌, ◌≤◌, ◌≡◌, Bool, false, String, Option, List, [], ◌∷◌, length, take, drop,
  ltb as nat_ltb, if◌then◌else◌,
}
use neuro_forge.Base.Float
use neuro_forge.Base.Float.{Floats}
use neuro_forge.Genomes.Schema.{Fields}

pub record Observation (F V : Type 0) : Type 0 where
  pub point : Fields V
  pub fitness : F

-- `SearchStrategy`: a strategy's object is a state, and `ask` and `tell` change it. `convergence` is
-- the reason to stop, where there is one.
pub record SearchStrategy (F V : Type 0) : Type 1 where
  pub State : Type 0
  pub start : State
  pub ask : State → ℕ → State × List (Fields V)
  pub replay_ask : State → ℕ → State
  pub tell : State → List (Observation F V) → State
  pub convergence : State → Option String

-- What the engine relies on: no more points than asked for, and a replay of an `ask` by the number of
-- points that it gave leaves the state that the `ask` left.
pub record StrategyLaws {F V : Type 0} (s : SearchStrategy F V) : Type 0 where
  pub ask_bound : (t : s.State) (n : ℕ) → length (s.ask t n).1 ≤ n
  pub ask_replay : (t : s.State) (n : ℕ) → s.replay_ask t (length (s.ask t n).1) ≡ (s.ask t n).0

module _ (fl : Floats) where
  open fl use {F, sub, ltb}

  -- `max(xs)`; the source calls it on lists that are not empty.
  unfoldable pub max_from : F → List F → F
  max_from m [] = m
  max_from m (x ∷ xs) = max_from (Float.max fl m x) xs

  unfoldable pub max_of : List F → F
  max_of [] = Float.f_zero fl
  max_of (x ∷ xs) = max_from x xs

  -- `history[-patience:]` and `history[:-patience]`, for a patience that is not 0.
  unfoldable pub detect_plateau : List F → ℕ → F → Bool
  detect_plateau history patience min_delta =
      let cut = length history - patience in
      let recent_best = max_of (drop cut history) in
      let prior_best = max_of (take cut history) in
      if nat_ltb (length history) (patience + 1)
      then false
      else ltb (sub recent_best prior_best) min_delta
