-- ===== src/Runner/Examples.antt =====
-- A run of an experiment that is cancelled, and one that another run holds, while a cancel request is
-- there.
use neuro_forge.Base.{ℕ, true, none, some, [], ◌∷◌, ok, err, ◌≡◌, refl}
use neuro_forge.Genomes.{generated}
use neuro_forge.Datasets.{DatasetVersion}
use neuro_forge.Db.{GenomeRecord, Session, find_genome, save_genome}
use neuro_forge.Db.Experiments.{save_experiment, write_experiment}
use neuro_forge.Store.{get_dataset_version}
use neuro_forge.Runner.{
  RunnerState, Engine, experiment_already_running, run_recorded_experiment, baseline_for_run,
  dataset_for_run, run_with, with_status, after_run, unlink_flag, save_result,
}
use neuro_forge.Runner.Reported.{status_in}

abbrev baseline : GenomeRecord
baseline = record {
  hash = "v1";
  system_id = "support";
  version = 1;
  parent_hash = none;
  generation = 0;
  status = generated;
}

abbrev dataset : DatasetVersion ℕ
dataset = record {
  dataset_id = "support-dataset";
  version = 1;
  parent_version = none;
  source = "seed";
  challenges = [];
  difficulty_score = 0;
  validated = true;
}

abbrev session : Session
session = record {
  genomes = baseline ∷ [];
  experiments =
      record {
        experiment_id = "e1";
        application_id = "support";
        status = "running";
        config = record {
          domain_name = "forge-support";
          baseline_hash = some "v1";
          first_candidate_version = some 2;
          max_candidates = 200;
          max_batches = 20;
          batch_size = 16;
          dataset_id = none;
        };
        result = none;
      }
      ∷ [];
  decisions = [];
  canaries = [];
  approvals = [];
}

abbrev state : RunnerState ℕ
state = record {
  store = record {
    session = session;
    applications = [];
    datasets = dataset ∷ [];
    evaluations = [];
  };
  cancel_flags = "e1" ∷ [];
}

abbrev engine : Engine ℕ
engine = record {
  can_set_up = λ e g d. true;
  run = λ e g d. ok (
    record {
      dataset_id = some d.dataset_id;
      dataset_version = some d.version;
      baseline_genome = g.hash;
      best_genome = g;
    },
    "cancelled",
  );
  checkpoint_version = λ e. some 1;
}

abbrev busy_engine : Engine ℕ
busy_engine = record engine { run = λ e g d. err experiment_already_running }

-- The run that is cancelled has that status, and its request is gone.
cancelled_row :
    status_in (run_recorded_experiment engine state "e1").0.store.session.experiments "e1"
    ≡ some "cancelled"
unfolding run_recorded_experiment baseline_for_run dataset_for_run run_with with_status after_run
    unlink_flag save_result save_experiment get_dataset_version find_genome write_experiment
    save_genome
cancelled_row = refl

busy_row :
    status_in (run_recorded_experiment busy_engine state "e1").0.store.session.experiments "e1"
    ≡ some "running"
unfolding run_recorded_experiment baseline_for_run dataset_for_run run_with with_status after_run
    unlink_flag save_experiment get_dataset_version find_genome write_experiment
busy_row = refl
