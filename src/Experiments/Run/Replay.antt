-- ===== src/Experiments/Run/Replay.antt =====
-- A run that resumes from its checkpoint goes on from the state at which it was saved
-- (src/neuroforge/experiments/engine.py, `_run`; checkpoint.py).
use neuro_forge.Base.{
  ℕ, ◌+◌, ◌≡◌, refl, sym, ap, subst, ◌∙◌, List, [], ◌∷◌, ◌++◌, map, length, length-map,
  length-append, arith, Returns,
}
use neuro_forge.Base.Float.{Floats}
use neuro_forge.Genomes.Schema.{SystemGenome}
use neuro_forge.Evaluation.Metrics.{AggregateMetrics}
use neuro_forge.Datasets.{Challenge}
use neuro_forge.Optimization.Strategy.{Observation, SearchStrategy, StrategyLaws}
use neuro_forge.Experiments.Budget.{to_state, from_state}
use neuro_forge.Experiments.Checkpoint.{
  TellBatch, ExperimentCheckpoint, points_of, replay_batch, replay_batches, generations_completed,
  candidates_completed,
}
use neuro_forge.Experiments.Candidate.{ExperimentConfig, Surroundings, Scored}
use neuro_forge.Experiments.Run.{
  Progress, next, absorb_one, absorb, close_generation, finish_generation, step, observation, asked,
  proposed, resume,
}
use neuro_forge.Experiments.Run.Rounds.{Holds, step-Holds}
use neuro_forge.Experiments.Run.Bounded.{length-evaluate_points}

module _ {F V : Type 0} where
  points_of-append :
      (bs : List (TellBatch F V)) (b : TellBatch F V)
      → points_of (bs ++ b ∷ []) ≡ points_of bs + length b
  unfolding points_of
  points_of-append [] b = omega arith
  points_of-append (x ∷ bs) b = omega (arith, points_of-append bs b)

  replay_batches-append :
      (s : SearchStrategy F V) (t : s.State) (bs : List (TellBatch F V)) (b : TellBatch F V)
      → replay_batches s t (bs ++ b ∷ []) ≡ replay_batch s (replay_batches s t bs) b
  unfolding replay_batches
  replay_batches-append s t [] b = refl
  replay_batches-append s t (x ∷ bs) b = replay_batches-append s (replay_batch s t x) bs b

module _ (fl : Floats) {V : Type 0} (config : ExperimentConfig fl.F) (env : Surroundings fl.F V)
    (s : SearchStrategy fl.F V) (baseline : SystemGenome V) where
  open fl use {F}

  abbrev P : Type 0
  P = Progress F V s.State

  -- The run that resumes from what `p` saved has the loop's variables of `p`, but for the clock.
  pub record IsResumable (p : P) : Type 0 where
    pub same_strategy : (resume fl config env s baseline p.saved).strategy ≡ p.strategy
    pub same_candidates :
        (resume fl config env s baseline p.saved).tracker.candidates_used
        ≡ p.tracker.candidates_used
    pub same_requests :
        (resume fl config env s baseline p.saved).tracker.requests_used ≡ p.tracker.requests_used
    pub same_cost :
        (resume fl config env s baseline p.saved).tracker.cost_used ≡ p.tracker.cost_used
    pub same_genome : (resume fl config env s baseline p.saved).best_genome ≡ p.best_genome
    pub same_fitness : (resume fl config env s baseline p.saved).best_fitness ≡ p.best_fitness
    pub same_feasible : (resume fl config env s baseline p.saved).best_feasible ≡ p.best_feasible
    pub same_version : (resume fl config env s baseline p.saved).next_version ≡ p.next_version
    pub same_index : (resume fl config env s baseline p.saved).generation_index ≡ p.generation_index

  -- The states at the head of the loop, in a run from a checkpoint.
  pub data Reached (base : AggregateMetrics F) (challenges : List (Challenge F))
      (c : ExperimentCheckpoint F V) : P → Type 0 where
    begin : Reached base challenges c (resume fl config env s baseline c)
    round :
        (p q : P)
        → Reached base challenges c p
        → step fl config env s baseline base challenges p ≡ next q
        → Reached base challenges c q

  resume-IsResumable :
      (c : ExperimentCheckpoint F V) → IsResumable (resume fl config env s baseline c)
  unfolding resume generations_completed candidates_completed
  resume-IsResumable c = record {
    same_strategy = refl;
    same_candidates = refl;
    same_requests = refl;
    same_cost = refl;
    same_genome = refl;
    same_fitness = refl;
    same_feasible = refl;
    same_version = refl;
    same_index = refl;
  }

  -- What the evaluated candidates leave as it was, and how they are numbered.
  absorb-keeps :
      (p : P) (xs : List (Scored F V))
      → ((absorb fl config env s baseline p xs).strategy ≡ p.strategy)
        × ((absorb fl config env s baseline p xs).saved ≡ p.saved)
        × ((absorb fl config env s baseline p xs).generation_index ≡ p.generation_index)
        × ((absorb fl config env s baseline p xs).next_version ≡ p.next_version + length xs)
  unfolding absorb absorb_one
  absorb-keeps p [] = (refl, refl, refl, omega arith)
  absorb-keeps p (x ∷ xs) =
      let (a, b, c, d) = absorb-keeps (absorb_one fl config env s baseline p x) xs in
      (a, b, c, omega (arith, d))

  -- A batch that is told again after a replayed `ask` leaves the state that the search was in.
  replay_batch-ask :
      (laws : StrategyLaws s) (t : s.State) (n : ℕ) (obs : List (Observation F V))
      → length obs ≡ length (s.ask t n).1
      → replay_batch s t obs ≡ s.tell (s.ask t n).0 obs
  unfolding replay_batch
  replay_batch-ask laws t n obs e =
      ap (λ u. s.tell u obs) (ap (s.replay_ask t) e ∙ laws.ask_replay t n)

  module _ (laws : StrategyLaws s) (base : AggregateMetrics F)
      (challenges : List (Challenge F)) where
    abbrev told : P → P
    told p = asked fl config env s baseline base challenges p

    finish-IsResumable :
        (p : P) (xs : List (Scored F V))
        → IsResumable p
        → length xs ≡ length (proposed fl config env s baseline base challenges p)
        → IsResumable (finish_generation fl config env s baseline (told p) xs)
    unfolding finish_generation close_generation resume generations_completed candidates_completed
        to_state from_state
    finish-IsResumable p xs i n =
        let (strategy, saved, index, version) = absorb-keeps (told p) xs in
        let obs = map (observation fl config env s baseline) xs in
        let batches = (absorb fl config env s baseline (told p) xs).saved.tell_batches in
        let kept : batches ≡ p.saved.tell_batches = ap (λ c. c.tell_batches) saved in
        let count : length obs ≡ length xs = length-map xs (observation fl config env s baseline) in
        record {
          same_strategy =
              replay_batches-append s s.start batches obs
              ∙ ap (λ bs. replay_batch s (replay_batches s s.start bs) obs) kept
              ∙ ap (λ t. replay_batch s t obs) i.same_strategy
              ∙ replay_batch-ask laws p.strategy _ obs (count ∙ n)
              ∙ ap (λ t. s.tell t obs) (sym strategy);
          same_candidates = refl;
          same_requests = refl;
          same_cost = refl;
          same_genome = refl;
          same_fitness = refl;
          same_feasible = refl;
          same_version = omega (
            arith,
            points_of-append batches obs,
            ap points_of kept,
            i.same_version,
            version,
            count,
          );
          same_index =
              omega (arith, length-append batches (obs ∷ []), ap length kept, i.same_index, index);
        }

    -- At the head of the loop, whatever checkpoint the run began from, a run that resumes from what is
    -- saved has the same strategy state, budget counters, incumbent, version number and generation
    -- number, if the strategy's replayed `ask` leaves the state that the `ask` left and an `ask` gives no
    -- more points than asked for.
    pub Reached-IsResumable :
        (c : ExperimentCheckpoint F V) (p : P) → Reached base challenges c p → IsResumable p
    Reached-IsResumable c _ begin = resume-IsResumable c
    Reached-IsResumable c _ (round p q r e) =
        let i = Reached-IsResumable c p r in
        subst (Holds fl config env s baseline IsResumable (λ _. Unit)) e (
          step-Holds fl config env s baseline base challenges IsResumable (λ _. Unit) p tt tt
            λ more xs ok_xs. (
              finish-IsResumable p xs i (
                  subst
                    (Returns (λ ys.
                      length ys ≡ length (proposed fl config env s baseline base challenges p)))
                    ok_xs
                    (length-evaluate_points fl config env s baseline base challenges
                      p.generation_index p.next_version
                      (proposed fl config env s baseline base challenges p))),
              tt,
            ))
