-- ===== src/Lib.antt =====
-- NeuroForge searches for better configurations of a language-model application and decides which of
-- them may go into production. This library models its Python package and proves what makes the parts
-- correct. Paths below are from the repository's root.
--
-- Parts, and the files that model them:
--   Base, Base/*: names from the libraries, list and text helpers, errors as values, and
--     Base/Float, the interface of Python's floats: a type with its operations, of which the laws that
--     are relied on are a record. Base/Float/Fixed is an arithmetic that meets the laws.
--   Genomes, Genomes/Schema: the promotion statuses, genomes and their children
--     (src/neuroforge/genomes/schema.py).
--   Mutations/*: the mutation policy, the operators and the proposal of candidates
--     (src/neuroforge/mutations/policy.py, operators.py, engine.py).
--   Optimization/*: the interface of a search strategy, and grid search
--     (src/neuroforge/optimization/).
--   Db, Db/*: the tables and queries (src/neuroforge/db/models.py, repository.py). A session is the
--     content of the tables, in the order of insertion, which `ORDER BY created_at, id` is.
--     Db/Experiments has the experiments and the version numbers that they reserve, with
--     `experiment_resume` (src/neuroforge/cli/main.py), and Db/Versions what keeps the numbers apart.
--   Store: the datasets, the applications and the holdout measurements, beside a session.
--   Lifecycle/*: the production lifecycle (src/neuroforge/promotion/lifecycle.py). Log has the
--     replay of the approval log and the reconciliation, Change the promotion and the rollback, Baseline
--     the choice of a baseline.
--   Evaluation/*: metrics, their aggregates and comparisons (src/neuroforge/evaluation/).
--   Promotion/*: safety constraints, gates, the canary, the holdout evidence and the review
--     (src/neuroforge/promotion/safety.py, gates.py, canary.py, holdout.py, review.py).
--   Experiments/*: the experiment engine (src/neuroforge/experiments/). Budget and Checkpoint are the
--     files of those names, Limits the limits that the search aims at, Candidate the derivation and the
--     evaluation of one generation, Run the loop of `_run`, and Configure the choice of the dimensions.
--     The loop has fuel; more than `max_batches` is enough. What the clock, the cancel file and the
--     domain give is a parameter. The events that the engine logs are left out: none of its decisions
--     reads them.
--   Datasets, Datasets/*: the splits, the holdout guard and the growth of a dataset
--     (src/neuroforge/datasets/). The number that a seed and an id draw is a parameter.
--   Runner: the run of a stored experiment (src/neuroforge/experiments/runner.py), with the engine as a
--     parameter.
--   Api/*: the web API (src/apps/api/neuroforge_api/). Auth is auth.py, Endpoint what the endpoints of
--     main.py share, Promotions those of the promotion pipeline, and Experiments the creation of one.
--
-- Not modelled: the locks and files, whose effect is the assumption that an operation is one step; the
-- numerics of numpy and scipy (the bootstrap, the Gaussian process); the language-model providers and the
-- domains' scoring, which the parts above take as parameters; the judges; the strategies of search but
-- for the grid; the event log and the weights of the objectives as a request gives them; the other
-- commands and endpoints and the scripts, which for the most part only call these parts. A genome is its
-- fields under full dotted paths: a path that stands for a whole section is an unknown field here, where
-- the source replaces the section.
pub mod Base
pub mod Genomes
pub mod Db
pub mod Lifecycle
pub mod Evaluation
pub mod Promotion
pub mod Experiments
pub mod Datasets
pub mod Mutations
pub mod Optimization
pub mod Store
pub mod Api
pub mod Runner
