-- ===== src/Experiments/Run/Bounded.antt =====
-- The search ends, and never goes over its budget of candidates.
use neuro_forge.Base.{
  Returns, Returns-bind, Returns-bind_any, or_raise, ℕ, zero, suc, ◌+◌, ◌-◌, ◌≤◌, ◌<◌, min, ◌≡◌,
  refl, ap, subst, some, List, [], ◌∷◌, length, arith, Result, ok, err,
}
use neuro_forge.Base.Float.{Floats}
use neuro_forge.Genomes.Schema.{derive, Fields, SystemGenome}
use neuro_forge.Evaluation.Metrics.{AggregateMetrics}
use neuro_forge.Datasets.{Challenge}
use neuro_forge.Optimization.Strategy.{SearchStrategy, StrategyLaws}
use neuro_forge.Experiments.Budget.{record_usage}
use neuro_forge.Experiments.Candidate.{
  ExperimentConfig, Surroundings, value_out_of_range, mutation_records, EngineError, Scored,
  derive_points, score_candidates, score_candidate, check_points, evaluate_points,
}
use neuro_forge.Experiments.Run.Rounds.{Holds, Outcome, step-Holds, search-Outcome}
use neuro_forge.Experiments.Run.{
  Progress, Step, next, stop, fail, StopReason, absorb_one, absorb, close_generation,
  finish_generation, step, search, asked, proposed,
}

module _ (fl : Floats) {V : Type 0} (config : ExperimentConfig fl.F) (env : Surroundings fl.F V)
    (s : SearchStrategy fl.F V) (baseline : SystemGenome V) where
  open fl use {F}

  abbrev P : Type 0
  P = Progress F V s.State

  length-derive_points :
      (g v : ℕ) (ps : List (Fields V))
      → Returns (λ gs. length gs ≡ length ps) (derive_points fl config env baseline g v ps)
  unfolding derive_points
  length-derive_points g v [] = refl
  length-derive_points g v (p ∷ ps) =
      Returns-bind_any (λ gs. length gs ≡ suc (length ps))
        (mutation_records env.same_value config.search_strategy baseline.fields p) _
        λ records.
          Returns-bind_any (λ gs. length gs ≡ suc (length ps))
            (or_raise
              (derive env.hash env.in_range baseline records p v
                (some (baseline.generation + 1 + g)))
              value_out_of_range)
            _
            λ child.
              Returns-bind (λ gs. length gs ≡ suc (length ps)) (λ gs. length gs ≡ length ps)
                (derive_points fl config env baseline g (v + 1) ps) _
                (length-derive_points g (v + 1) ps) λ rest h. ap suc h

  length-score_candidates :
      (base : AggregateMetrics F) (cs : List (Challenge F)) (gs : List (SystemGenome V × Fields V))
      → Returns (λ xs. length xs ≡ length gs) (score_candidates fl config env base cs gs)
  unfolding score_candidates
  length-score_candidates base cs [] = refl
  length-score_candidates base cs (g ∷ gs) =
      Returns-bind_any (λ xs. length xs ≡ suc (length gs)) (score_candidate fl config env base cs g)
        _
        λ x.
          Returns-bind (λ xs. length xs ≡ suc (length gs)) (λ xs. length xs ≡ length gs)
            (score_candidates fl config env base cs gs) _ (length-score_candidates base cs gs)
            λ xs h. ap suc h

  -- Each point of a generation is evaluated once.
  pub length-evaluate_points :
      (base : AggregateMetrics F) (cs : List (Challenge F)) (g v : ℕ) (ps : List (Fields V))
      → Returns
          (λ xs. length xs ≡ length ps)
          (evaluate_points fl config env baseline base cs g v ps)
  unfolding evaluate_points
  length-evaluate_points base cs g v ps =
      Returns-bind_any (λ xs. length xs ≡ length ps) (check_points config.mutation_policy ps) _
        λ _.
          Returns-bind (λ xs. length xs ≡ length ps) (λ gs. length gs ≡ length ps)
            (derive_points fl config env baseline g v ps) _ (length-derive_points g v ps)
            λ gs h.
              subst (λ n. Returns (λ xs. length xs ≡ n) (score_candidates fl config env base cs gs))
                h (length-score_candidates base cs gs)

  -- What a generation leaves of the counters.
  absorb-counts :
      (p : P) (xs : List (Scored F V))
      → ((absorb fl config env s baseline p xs).tracker.candidates_used
          ≡ p.tracker.candidates_used + length xs)
        × ((absorb fl config env s baseline p xs).generation_index ≡ p.generation_index)
  unfolding absorb absorb_one record_usage
  absorb-counts p [] = ground arith
  absorb-counts p (x ∷ xs) =
      ground (arith, absorb-counts (absorb_one fl config env s baseline p x) xs)

  -- The tracker counts against the budget of the configuration, and is within its candidates.
  abbrev pub IsWithin : P → Type 0
  IsWithin p = p.tracker.candidates_used ≤ config.budget.max_candidates

  module _ (laws : StrategyLaws s) (base : AggregateMetrics F)
      (challenges : List (Challenge F)) where
    finish-IsWithin :
        (p : P) (xs : List (Scored F V))
        → IsWithin p
        → evaluate_points fl config env baseline base challenges p.generation_index p.next_version
            (proposed fl config env s baseline base challenges p)
          ≡ ok xs
        → IsWithin (
            finish_generation fl config env s baseline
              (asked fl config env s baseline base challenges p)
              xs)
    unfolding finish_generation close_generation
    finish-IsWithin p xs w e =
        let ps = proposed fl config env s baseline base challenges p in
        let count : length xs ≡ length ps =
          subst (Returns (λ ys. length ys ≡ length ps)) e
            (length-evaluate_points base challenges p.generation_index p.next_version ps) in
        omega (
          arith,
          w,
          count,
          laws.ask_bound p.strategy
              (min config.batch_size (config.budget.max_candidates - p.tracker.candidates_used)),
          (absorb-counts (asked fl config env s baseline base challenges p) xs).0,
        )

  module _ (base : AggregateMetrics F) (challenges : List (Challenge F)) where
    abbrev OneFurther : P → P → Type 0
    OneFurther p q =
        (q.generation_index ≡ suc p.generation_index) × (p.generation_index < config.max_batches)

    round_counts :
        (p : P)
        → Holds fl config env s baseline
            (OneFurther p)
            (λ _. Unit)
            (step fl config env s baseline base challenges p)
    unfolding finish_generation close_generation
    round_counts p =
        step-Holds fl config env s baseline base challenges (OneFurther p) (λ _. Unit) p tt tt
          λ more xs e. (
            ground (
              arith,
              (absorb-counts (asked fl config env s baseline base challenges p) xs).1,
              more,
            ),
            tt,
          )

    -- A search with more fuel than there are batches left ends: it stops for a reason, or raises.
    pub search_terminates :
        (fuel : ℕ) (p : P)
        → config.max_batches - p.generation_index < fuel
        → (o : Result EngineError (P × StopReason F)) × (search fl config env s baseline base
              challenges fuel p
            ≡ some o)
    unfolding search
    search_terminates zero p h = absurd (omega (arith, h))
    search_terminates (suc fuel) p h =
        go (search_terminates fuel) (step fl config env s baseline base challenges p)
          (round_counts p)
      where
        go :
            (rest : (q : P)
              → config.max_batches - q.generation_index < fuel
              → (o : Result EngineError (P × StopReason F)) × (search fl config env s baseline base
                    challenges fuel q
                  ≡ some o))
            (r : Step F V s.State)
            → Holds fl config env s baseline (OneFurther p) (λ _. Unit) r
            → (o : Result EngineError (P × StopReason F)) × (elim r [
              | next q ↦ search fl config env s baseline base challenges fuel q
              | stop q reason ↦ some (ok (q, reason))
              | fail e ↦ some (err e)
            ]
                ≡ some o)
        go rest (next q) k = rest q (omega (arith, h, k.0, k.1))
        go rest (stop q reason) k = (ok (q, reason), refl)
        go rest (fail e) k = (err e, refl)

  module _ (laws : StrategyLaws s) (base : AggregateMetrics F)
      (challenges : List (Challenge F)) where
    -- A search that starts within its budget of candidates, with more fuel than there are batches left,
    -- ends, within the budget or by raising, whatever the batch size, for every strategy that gives no
    -- more points than it is asked for and whose replayed ask leaves the state that the ask left.
    pub search-IsWithin :
        (fuel : ℕ) (p : P)
        → config.max_batches - p.generation_index < fuel
        → IsWithin p
        → (o : Result EngineError (P × StopReason F)) × (search fl config env s baseline base
              challenges fuel p
            ≡ some o)
          × Returns (λ qr. IsWithin qr.0) o
    search-IsWithin fuel p h w =
        let (o, e) = search_terminates base challenges fuel p h in
        let within =
          search-Outcome fl config env s baseline base challenges IsWithin IsWithin
            (λ q i.
              step-Holds fl config env s baseline base challenges IsWithin IsWithin q i i λ _ xs k.
                (
                  finish-IsWithin laws base challenges q xs i k,
                  finish-IsWithin laws base challenges q xs i k,
                ))
            fuel p w in
        (o, e, subst (Outcome fl config env s baseline IsWithin) e within)
