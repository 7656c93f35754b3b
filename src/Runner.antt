-- ===== src/Runner.antt =====
-- A run of a stored experiment (src/neuroforge/experiments/runner.py). The engine is a parameter: whether
-- it can be set up, and what its run gives. A cancel request is the id of its experiment in a list, the
-- file of the source.
pub mod Reported
pub mod Examples
use neuro_forge.Base.{
  ℕ, zero, suc, String, Bool, true, false, not, Option, none, some, List, [], ◌∷◌, keep, find,
  nat_eq, ◌==◌, if◌then◌else◌, Result, ok, err,
}
use neuro_forge.Datasets.{DatasetVersion}
use neuro_forge.Db.{
  GenomeRecord, StoredConfig, StoredResult, ExperimentRecord, Session, get_genome_record,
  list_genomes_for_system, save_genome, get_experiment,
}
use neuro_forge.Db.Experiments.{save_experiment}
use neuro_forge.Store.{Store, id_or_default, get_dataset_version, dataset_for_experiment}

pub record RunnerState (F : Type 0) : Type 0 where
  pub store : Store F
  pub cancel_flags : List String

-- How the engine ends without a result: another run holds the lock, a split is too small, or it crashes.
pub data EngineFailure : Type 0 where
  experiment_already_running dataset_too_small crashed : EngineFailure

-- What the caller sees.
pub data RunnerError : Type 0 where
  unknown_experiment : String → RunnerError
  missing_baseline_or_dataset not_set_up : RunnerError
  engine_failed : EngineFailure → RunnerError

-- `engine.run()` gives a result with its status.
pub record Engine (F : Type 0) : Type 0 where
  pub can_set_up : ExperimentRecord → GenomeRecord → DatasetVersion F → Bool
  pub run :
      ExperimentRecord
      → GenomeRecord
      → DatasetVersion F
      → Result EngineFailure (StoredResult × String)
  -- The `dataset_version` of the checkpoint, if there is one.
  pub checkpoint_version : String → Option ℕ

-- `_baseline_for_run`
unfoldable pub baseline_for_run : Session → String → StoredConfig → Option GenomeRecord
baseline_for_run s app config = elim config.baseline_hash [
  | none ↦ find (λ g. nat_eq g.version 1) (list_genomes_for_system s app)
  | some h ↦
      if h == ""
      then find (λ g. nat_eq g.version 1) (list_genomes_for_system s app)
      else get_genome_record s h
]

module _ {F : Type 0} where
  -- `_dataset_for_run`: a checkpoint without a version, or with 0, does not bind the run to one.
  unfoldable pub dataset_for_run :
      Store F → String → StoredConfig → Option ℕ → Option (DatasetVersion F)
  dataset_for_run st app config none = dataset_for_experiment st app config
  dataset_for_run st app config (some zero) = dataset_for_experiment st app config
  dataset_for_run st app config (some (suc v)) =
      get_dataset_version st (id_or_default config.dataset_id app) (suc v)

  -- `save_experiment` in a session of its own.
  unfoldable pub with_status : RunnerState F → ExperimentRecord → String → RunnerState F
  with_status st e status = record st {
    store = record st.store {
      session =
          save_experiment st.store.session e.experiment_id e.application_id e.config none status;
    };
  }

  abbrev pub mark_failed : RunnerState F → ExperimentRecord → RunnerState F
  mark_failed st e = with_status st e "failed"

  -- `cancel_flag.unlink(missing_ok=True)`
  unfoldable pub unlink_flag : RunnerState F → String → RunnerState F
  unlink_flag st experiment_id = record st {
    cancel_flags = keep (λ f. not (f == experiment_id)) st.cancel_flags;
  }

  unfoldable pub save_result :
      RunnerState F → ExperimentRecord → StoredResult → String → RunnerState F
  save_result st e result status = record st {
    store = record st.store {
      session =
          save_experiment (save_genome st.store.session result.best_genome) e.experiment_id
            e.application_id e.config (some result) status;
    };
  }

  -- The handlers of the `try` around the run; the `finally` follows each of them.
  unfoldable pub after_run :
      RunnerState F
      → ExperimentRecord
      → Result EngineFailure (StoredResult × String)
      → RunnerState F × Result RunnerError StoredResult
  after_run st e (err experiment_already_running) =
      (unlink_flag st e.experiment_id, err (engine_failed experiment_already_running))
  after_run st e (err dataset_too_small) =
      (unlink_flag (mark_failed st e) e.experiment_id, err (engine_failed dataset_too_small))
  after_run st e (err crashed) =
      (unlink_flag (mark_failed st e) e.experiment_id, err (engine_failed crashed))
  after_run st e (ok (result, status)) =
      (save_result (unlink_flag st e.experiment_id) e result status, ok result)

  -- The run with its baseline and its dataset, where they were found.
  unfoldable pub run_with :
      Engine F
      → RunnerState F
      → ExperimentRecord
      → Option GenomeRecord
      → Option (DatasetVersion F)
      → RunnerState F × Result RunnerError StoredResult
  run_with engine st e none dataset = (mark_failed st e, err missing_baseline_or_dataset)
  run_with engine st e (some g) none = (mark_failed st e, err missing_baseline_or_dataset)
  run_with engine st e (some g) (some d) =
      if engine.can_set_up e g d
      then after_run (with_status st e "running") e (engine.run e g d)
      else (mark_failed st e, err not_set_up)

  unfoldable pub run_recorded_experiment :
      Engine F → RunnerState F → String → RunnerState F × Result RunnerError StoredResult
  run_recorded_experiment engine st experiment_id =
      elim (get_experiment st.store.session experiment_id) [
        | none ↦ (st, err (unknown_experiment experiment_id))
        | some e ↦
            run_with engine st e (baseline_for_run st.store.session e.application_id e.config) (
              dataset_for_run st.store e.application_id e.config
                (engine.checkpoint_version experiment_id))
      ]
