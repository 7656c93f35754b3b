-- ===== src/Experiments/Run/Incumbent.antt =====
-- The genome that the search ends with keeps to the mutation policy
-- (src/neuroforge/experiments/engine.py, `_run`).
use neuro_forge.Base.{
  ℕ, ◌-◌, ◌<◌, ◌≡◌, subst, Bool, true, false, some, List, [], ◌∷◌, All, Result, ok, Returns,
  if◌then◌else◌,
}
use neuro_forge.Base.Float.{Floats}
use neuro_forge.Genomes.Schema.{SystemGenome}
use neuro_forge.Evaluation.Metrics.{AggregateMetrics}
use neuro_forge.Datasets.{Challenge}
use neuro_forge.Optimization.Strategy.{SearchStrategy}
use neuro_forge.Experiments.Limits.{beats}
use neuro_forge.Experiments.Candidate.{
  ExperimentConfig, Surroundings, EngineError, Scored, evaluate_points,
}
use neuro_forge.Experiments.Candidate.Allowed.{Fits, evaluate_points-Fits}
use neuro_forge.Experiments.Run.{
  Progress, StopReason, absorb_one, absorb, close_generation, finish_generation, search, asked,
  proposed,
}
use neuro_forge.Experiments.Run.Rounds.{Outcome, step-Holds, search-Outcome}
use neuro_forge.Experiments.Run.Bounded.{search_terminates}

module _ (fl : Floats) {V : Type 0} (config : ExperimentConfig fl.F) (env : Surroundings fl.F V)
    (s : SearchStrategy fl.F V) (baseline : SystemGenome V) where
  open fl use {F}

  abbrev P : Type 0
  P = Progress F V s.State

  abbrev pub BestFits : P → Type 0
  BestFits p = Fits fl config env baseline p.best_genome

  if-Fits :
      (b : Bool) (g h : SystemGenome V)
      → Fits fl config env baseline g
      → Fits fl config env baseline h
      → Fits fl config env baseline (if b then g else h)
  if-Fits true g h p q = p
  if-Fits false g h p q = q

  absorb-BestFits :
      (p : P) (xs : List (Scored F V))
      → All (λ x. Fits fl config env baseline x.genome) xs
      → BestFits p
      → BestFits (absorb fl config env s baseline p xs)
  unfolding absorb absorb_one
  absorb-BestFits p [] all h = h
  absorb-BestFits p (x ∷ xs) all h =
      absorb-BestFits (absorb_one fl config env s baseline p x) xs all.1 (
        if-Fits (beats fl x.feasible x.fitness p.best_feasible p.best_fitness) x.genome
          p.best_genome all.0 h)

  module _ (base : AggregateMetrics F) (challenges : List (Challenge F)) where
    finish-BestFits :
        (p : P) (xs : List (Scored F V))
        → BestFits p
        → evaluate_points fl config env baseline base challenges p.generation_index p.next_version
            (proposed fl config env s baseline base challenges p)
          ≡ ok xs
        → BestFits (
            finish_generation fl config env s baseline
              (asked fl config env s baseline base challenges p)
              xs)
    unfolding finish_generation close_generation
    finish-BestFits p xs h e =
        absorb-BestFits (asked fl config env s baseline base challenges p) xs
          (subst (Returns (All (λ x. Fits fl config env baseline x.genome))) e (
            evaluate_points-Fits fl config env baseline base challenges p.generation_index
              p.next_version (proposed fl config env s baseline base challenges p)))
          h

    -- A search with more fuel than there are batches left, from an incumbent that has the baseline's
    -- value in each field that the policy does not allow to change, ends, and unless it raises it ends
    -- with such an incumbent.
    pub search-BestFits :
        (fuel : ℕ) (p : P)
        → config.max_batches - p.generation_index < fuel
        → BestFits p
        → (o : Result EngineError (P × StopReason F)) × (search fl config env s baseline base
              challenges fuel p
            ≡ some o)
          × Returns (λ qr. BestFits qr.0) o
    search-BestFits fuel p h w =
        let (o, e) = search_terminates fl config env s baseline base challenges fuel p h in
        let fits =
          search-Outcome fl config env s baseline base challenges BestFits BestFits
            (λ q i.
              step-Holds fl config env s baseline base challenges BestFits BestFits q i i
                λ _ xs k. (finish-BestFits q xs i k, finish-BestFits q xs i k))
            fuel p w in
        (o, e, subst (Outcome fl config env s baseline BestFits) e fits)
