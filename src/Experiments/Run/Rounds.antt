-- ===== src/Experiments/Run/Rounds.antt =====
-- How a round of the loop leads on, for the invariants of the search
-- (src/neuroforge/experiments/engine.py, `_run`).
use neuro_forge.Base.{
  Returns, ℕ, zero, suc, ◌≡◌, refl, Bool, true, false, Option, none, some, List, Result, ok, err,
  if◌then◌else◌, leb,
}
use neuro_forge.Base.Float.{Floats}
use neuro_forge.Genomes.Schema.{SystemGenome}
use neuro_forge.Evaluation.Metrics.{AggregateMetrics}
use neuro_forge.Promotion.Safety.{is_empty}
use neuro_forge.Datasets.{Challenge}
use neuro_forge.Optimization.Strategy.{SearchStrategy}
use neuro_forge.Experiments.Budget.{exhausted}
use neuro_forge.Experiments.Candidate.{
  ExperimentConfig, Surroundings, EngineError, Scored, evaluate_points,
}
use neuro_forge.Experiments.Run.{
  Progress, Step, next, stop, fail, StopReason, converged, max_batches_reached, budget_exhausted,
  check_convergence, finish_generation, generation, step, search, asked, proposed,
}

module _ (fl : Floats) {V : Type 0} (config : ExperimentConfig fl.F) (env : Surroundings fl.F V)
    (s : SearchStrategy fl.F V) (baseline : SystemGenome V) where
  open fl use {F}

  abbrev P : Type 0
  P = Progress F V s.State

  -- `I` of the state that a round leads to, `K` of one at which the search stops.
  abbrev pub Holds : (I K : P → Type 0) → Step F V s.State → Type 0
  Holds I K (next q) = I q
  Holds I K (stop q reason) = K q
  Holds I K (fail e) = Unit

  abbrev pub Outcome : (P → Type 0) → Option (Result EngineError (P × StopReason F)) → Type 0
  Outcome K none = Unit
  Outcome K (some r) = Returns (λ qr. K qr.0) r

  if-Holds :
      (I K : P → Type 0) (b : Bool) (x y : Step F V s.State)
      → Holds I K x
      → (b ≡ false → Holds I K y)
      → Holds I K (if b then x else y)
  if-Holds I K true x y h k = h
  if-Holds I K false x y h k = k refl

  check-Holds :
      (I K : P → Type 0) (q : P)
      → I q
      → K q
      → Holds I K (check_convergence fl config env s baseline q)
  unfolding check_convergence
  check-Holds I K q i j =
      elim (s.convergence q.strategy)
        as (λ c. Holds I K (elim c [
          | none ↦ next q
          | some reason ↦ if q.best_feasible then stop q (converged reason) else next q
        ])) [
          | none ↦ i
          | some reason ↦
              if-Holds I K q.best_feasible (stop q (converged reason)) (next q) j (λ _. i)
        ]

  module _ (base : AggregateMetrics F) (challenges : List (Challenge F)) where
    abbrev finished : P → List (Scored F V) → P
    finished p xs =
        finish_generation fl config env s baseline
          (asked fl config env s baseline base challenges p) xs

    abbrev evaluated : P → Result EngineError (List (Scored F V))
    evaluated p =
        evaluate_points fl config env baseline base challenges p.generation_index p.next_version
          (proposed fl config env s baseline base challenges p)

    generation-Holds :
        (I K : P → Type 0) (p : P)
        → K (asked fl config env s baseline base challenges p)
        → ((xs : List (Scored F V)) → evaluated p ≡ ok xs → I (finished p xs) × K (finished p xs))
        → Holds I K (generation fl config env s baseline base challenges p)
    unfolding generation
    generation-Holds I K p j h =
        if-Holds I K (is_empty (proposed fl config env s baseline base challenges p)) _ _ j
          (λ _. go (evaluated p) refl)
      where
        go :
            (r : Result EngineError (List (Scored F V)))
            → evaluated p ≡ r
            → Holds I K (elim r [
              | err e ↦ fail e
              | ok scored ↦ check_convergence fl config env s baseline (finished p scored)
            ])
        go (err e) r = tt
        go (ok xs) r = check-Holds I K (finished p xs) (h xs r).0 (h xs r).1

    -- What a round needs: `K` where it stops at once or after an empty proposal, and both of the end of
    -- a generation that is evaluated.
    pub step-Holds :
        (I K : P → Type 0) (p : P)
        → K p
        → K (asked fl config env s baseline base challenges p)
        → (leb config.max_batches p.generation_index ≡ false
            → (xs : List (Scored F V)) → evaluated p ≡ ok xs
            → I (finished p xs) × K (finished p xs))
        → Holds I K (step fl config env s baseline base challenges p)
    unfolding step
    step-Holds I K p j k h =
        if-Holds I K (env.cancelled p.generation_index) _ _ j
          λ _. within (exhausted fl p.tracker (env.minutes p.generation_index))
      where
        within :
            (r : Option _)
            → Holds I K (elim r [
              | some reason ↦ stop p (budget_exhausted reason)
              | none ↦
                  if leb config.max_batches p.generation_index
                  then stop p max_batches_reached
                  else generation fl config env s baseline base challenges p
            ])
        within (some reason) = j
        within none =
            if-Holds I K (leb config.max_batches p.generation_index) _ _ j
              λ more. generation-Holds I K p k (h more)

    -- An invariant of the rounds holds where the search stops.
    pub search-Outcome :
        (I K : P → Type 0)
        → ((p : P) → I p → Holds I K (step fl config env s baseline base challenges p))
        → (fuel : ℕ) (p : P) → I p
        → Outcome K (search fl config env s baseline base challenges fuel p)
    unfolding search
    search-Outcome I K round zero p i = tt
    search-Outcome I K round (suc fuel) p i =
        go (search-Outcome I K round fuel) (step fl config env s baseline base challenges p)
          (round p i)
      where
        go :
            (rest : (q : P)
              → I q
              → Outcome K (search fl config env s baseline base challenges fuel q))
            (r : Step F V s.State)
            → Holds I K r
            → Outcome K (elim r [
              | next q ↦ search fl config env s baseline base challenges fuel q
              | stop q reason ↦ some (ok (q, reason))
              | fail e ↦ some (err e)
            ])
        go rest (next q) h = rest q h
        go rest (stop q reason) h = h
        go rest (fail e) h = tt
