-- ===== src/Db/Versions/Numbers.antt =====
-- What `next_candidate_version` and `candidate_version_clash` promise
-- (src/neuroforge/db/repository.py).
use neuro_forge.Base.{
  ℕ, ◌+◌, ◌≤◌, max, String, true, false, none, List, [], ◌∷◌, keep, All, All-unkeep, ◌≡◌, ◌==◌,
  arith,
}
use neuro_forge.Db.{GenomeRecord, ExperimentRecord, Session, list_genomes_for_system}
use neuro_forge.Db.Experiments.{
  reserved_end, after_genomes, after_experiments, next_candidate_version, falls_inside, first_clash,
}

-- A new experiment starts after everything that is reserved.
after_experiments_start : (es : List ExperimentRecord) (n : ℕ) → n ≤ after_experiments es n
unfolding after_experiments
after_experiments_start [] n = omega arith
after_experiments_start (e ∷ es) n =
    omega (arith, after_experiments_start es (max n (reserved_end e.config)))

after_experiments_ends :
    (es : List ExperimentRecord) (n : ℕ)
    → All (λ e. reserved_end e.config ≤ after_experiments es n) es
unfolding after_experiments
after_experiments_ends [] n = tt
after_experiments_ends (e ∷ es) n =
    let m = max n (reserved_end e.config) in
    (omega (arith, after_experiments_start es m), after_experiments_ends es m)

after_genomes_start : (gs : List GenomeRecord) (n : ℕ) → n ≤ after_genomes gs n
unfolding after_genomes
after_genomes_start [] n = omega arith
after_genomes_start (g ∷ gs) n = omega (arith, after_genomes_start gs (max n (g.version + 1)))

pub next-All :
    (s : Session) (app : String)
    → All
        (λ e.
          (e.application_id == app) ≡ true → reserved_end e.config ≤ next_candidate_version s app)
        s.experiments
unfolding next_candidate_version
next-All s app =
    All-unkeep _ (λ e. e.application_id == app) s.experiments (after_experiments_ends _ _)

pub next_at_least : (s : Session) (app : String) → 2 ≤ next_candidate_version s app
unfolding next_candidate_version
next_at_least s app = omega (
  arith,
  after_experiments_start (keep (λ e. e.application_id == app) s.experiments)
      (after_genomes (list_genomes_for_system s app) 2),
  after_genomes_start (list_genomes_for_system s app) 2,
)

pub first_clash-none :
    (first n : ℕ) (es : List ExperimentRecord)
    → first_clash first n es ≡ none
    → All (λ e. falls_inside first n e.config.first_candidate_version ≡ false) es
unfolding first_clash
first_clash-none first n [] h = tt
first_clash-none first n (e ∷ es) h = ground (arith, first_clash-none first n es)
