-- ===== src/Runner/Reported.antt =====
-- What a run leaves of its experiment (src/neuroforge/experiments/runner.py).
use neuro_forge.Base.{
  String, true, false, Option, some, List, find, elem, ◌==◌, Result, ok, err, ◌≡◌, ◌≢◌,
}
use mathlib.Core.Option
use neuro_forge.Datasets.{DatasetVersion}
use neuro_forge.Db.{GenomeRecord, StoredResult, ExperimentRecord, get_experiment}
use neuro_forge.Runner.{
  RunnerState, EngineFailure, experiment_already_running, RunnerError, unknown_experiment,
  missing_baseline_or_dataset, not_set_up, engine_failed, Engine, baseline_for_run, dataset_for_run,
}

-- The row of an experiment, read for its status and its result.
abbrev pub status_in : List ExperimentRecord → String → Option String
status_in es id = Option.map (λ e. e.status) (find (λ e. e.experiment_id == id) es)

abbrev pub result_in : List ExperimentRecord → String → Option (Option StoredResult)
result_in es id = Option.map (λ e. e.result) (find (λ e. e.experiment_id == id) es)

module _ {F : Type 0} (engine : Engine F) (st : RunnerState F) (experiment_id : String) where
  abbrev rows : RunnerState F → List ExperimentRecord
  rows after = after.store.session.experiments

  -- What the engine gave for the row of the experiment, its baseline and its dataset.
  pub data EngineGave : Result EngineFailure (StoredResult × String) → Type 0 where
    gave :
        {e : ExperimentRecord} {g : GenomeRecord} {d : DatasetVersion F}
        → get_experiment st.store.session experiment_id ≡ some e
        → baseline_for_run st.store.session e.application_id e.config ≡ some g
        → dataset_for_run st.store e.application_id e.config
            (engine.checkpoint_version experiment_id)
          ≡ some d
        → engine.can_set_up e g d ≡ true
        → EngineGave (engine.run e g d)

  -- How a run of an experiment can end, and what its row then says.
  pub data IsReported : RunnerState F × Result RunnerError StoredResult → Type 0 where
    unknown : IsReported (st, err (unknown_experiment experiment_id))
    -- The engine is not run, and a cancel request stays.
    not_found :
        {after : RunnerState F}
        → status_in (rows after) experiment_id ≡ some "failed"
        → after.cancel_flags ≡ st.cancel_flags
        → IsReported (after, err missing_baseline_or_dataset)
    refused :
        {after : RunnerState F}
        → status_in (rows after) experiment_id ≡ some "failed"
        → after.cancel_flags ≡ st.cancel_flags
        → IsReported (after, err not_set_up)
    -- The engine fails, other than by the lock.
    failed :
        {after : RunnerState F} {e : EngineFailure}
        → EngineGave (err e)
        → e ≢ experiment_already_running
        → status_in (rows after) experiment_id ≡ some "failed"
        → elem experiment_id after.cancel_flags ≡ false
        → IsReported (after, err (engine_failed e))
    -- Another run holds the lock; the cancel request is gone all the same.
    busy :
        {after : RunnerState F}
        → EngineGave (err experiment_already_running)
        → status_in (rows after) experiment_id ≡ some "running"
        → elem experiment_id after.cancel_flags ≡ false
        → IsReported (after, err (engine_failed experiment_already_running))
    -- The row has the result and the status that the engine gave.
    done :
        {after : RunnerState F} {result : StoredResult} (status : String)
        → EngineGave (ok (result, status))
        → status_in (rows after) experiment_id ≡ some status
        → result_in (rows after) experiment_id ≡ some (some result)
        → elem experiment_id after.cancel_flags ≡ false
        → IsReported (after, ok result)
