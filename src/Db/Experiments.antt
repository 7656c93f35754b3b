-- ===== src/Db/Experiments.antt =====
-- The rows of the experiments, and the version numbers that they reserve for their candidates
-- (src/neuroforge/db/repository.py), with what `experiment resume` of the command line
-- (src/neuroforge/cli/main.py) does to them.
use neuro_forge.Base.{
  ℕ, zero, suc, ◌+◌, ◌-◌, ◌/◌, max, String, Bool, false, not, ◌&&◌, Option, none, some, List, [],
  ◌∷◌, keep, ◌==◌, leb, ltb, if◌then◌else◌, Result, ok, err, ◌>>=◌, ◌>>◌, raise_if, or_raise,
}
use neuro_forge.Db.{
  GenomeRecord, StoredConfig, StoredResult, ExperimentRecord, Session, list_genomes_for_system,
  get_experiment,
}

-- A result is stored over the old one only when there is one.
abbrev pub result_or : Option StoredResult → Option StoredResult → Option StoredResult
result_or none old = old
result_or (some r) old = some r

abbrev pub updated_row :
    ExperimentRecord → StoredConfig → Option StoredResult → String → ExperimentRecord
updated_row e config result status = record e {
  status = status;
  config = config;
  result = result_or result e.result;
}

-- The rows with the one of `experiment_id` written, or added if there is none.
unfoldable pub write_experiment :
    String
    → String
    → StoredConfig
    → Option StoredResult
    → String
    → List ExperimentRecord
    → List ExperimentRecord
write_experiment experiment_id application_id config result status [] =
    record {
      experiment_id = experiment_id;
      application_id = application_id;
      status = status;
      config = config;
      result = result;
    }
    ∷ []
write_experiment experiment_id application_id config result status (e ∷ es) =
    let rest = write_experiment experiment_id application_id config result status es in
    if e.experiment_id == experiment_id then updated_row e config result status ∷ es else e ∷ rest

unfoldable pub save_experiment :
    Session → String → String → StoredConfig → Option StoredResult → String → Session
save_experiment s experiment_id application_id config result status = record s {
  experiments = write_experiment experiment_id application_id config result status s.experiments;
}

-- `config.get("first_candidate_version") or 2`
abbrev pub first_or_two : Option ℕ → ℕ
first_or_two none = 2
first_or_two (some zero) = 2
first_or_two (some (suc n)) = suc n

-- The first number after those that an experiment reserves.
abbrev pub reserved_end : StoredConfig → ℕ
reserved_end c = first_or_two c.first_candidate_version + c.max_candidates

unfoldable pub after_genomes : List GenomeRecord → ℕ → ℕ
after_genomes [] start = start
after_genomes (g ∷ gs) start = after_genomes gs (max start (g.version + 1))

unfoldable pub after_experiments : List ExperimentRecord → ℕ → ℕ
after_experiments [] start = start
after_experiments (e ∷ es) start = after_experiments es (max start (reserved_end e.config))

unfoldable pub next_candidate_version : Session → String → ℕ
next_candidate_version s app =
    after_experiments (keep (λ e. e.application_id == app) s.experiments)
      (after_genomes (list_genomes_for_system s app) 2)

-- `other_first and first_version <= other_first < first_version + n_candidates`
unfoldable pub falls_inside : ℕ → ℕ → Option ℕ → Bool
falls_inside first n none = false
falls_inside first n (some zero) = false
falls_inside first n (some (suc m)) = leb first (suc m) && ltb (suc m) (first + n)

unfoldable pub first_clash : ℕ → ℕ → List ExperimentRecord → Option String
first_clash first n [] = none
first_clash first n (e ∷ es) =
    let rest = first_clash first n es in
    if falls_inside first n e.config.first_candidate_version then some e.experiment_id else rest

unfoldable pub candidate_version_clash : Session → String → String → ℕ → ℕ → Option String
candidate_version_clash s experiment_id app first n =
    first_clash first n
      (keep (λ e. e.application_id == app && not (e.experiment_id == experiment_id)) s.experiments)

-- The messages of `typer.BadParameter` on a resumption. The id of a clash, like every id, is not empty.
pub data ResumeError : Type 0 where
  already_running unknown_experiment : String → ResumeError
  version_clash : String → ℕ → String → ResumeError

-- `-(-a // b)`, for a batch size that is at least 1.
abbrev pub ceil_div : ℕ → ℕ → ℕ
ceil_div a b = (a + (b - 1)) / b

-- The larger budget: `already` candidates and `generations` are what the checkpoint counts, 0 without
-- one.
unfoldable pub extended : StoredConfig → ℕ → ℕ → ℕ → StoredConfig
extended config already generations extra = record config {
  max_candidates = already + extra;
  max_batches = max config.max_batches (generations + ceil_div extra config.batch_size);
}

-- `if clash: raise ...`
abbrev pub raise_clash : String → ℕ → Option String → Result ResumeError (Unit {0})
raise_clash experiment_id n none = ok tt
raise_clash experiment_id n (some other) = err (version_clash experiment_id n other)

-- Only a `first_candidate_version` that is there, and not 0, is checked.
unfoldable pub ensure_no_clash :
    Session → ExperimentRecord → ℕ → Option ℕ → Result ResumeError (Unit {0})
ensure_no_clash s e n none = ok tt
ensure_no_clash s e n (some zero) = ok tt
ensure_no_clash s e n (some (suc m)) =
    raise_clash e.experiment_id n
      (candidate_version_clash s e.experiment_id e.application_id (suc m) n)

-- `experiment_resume`, up to the run.
unfoldable pub resume_experiment : Session → Bool → String → ℕ → ℕ → ℕ → Result ResumeError Session
resume_experiment s lock_is_held experiment_id already generations extra = do
  raise_if lock_is_held (already_running experiment_id)
  e ← or_raise (get_experiment s experiment_id) (unknown_experiment experiment_id)
  let config = extended e.config already generations extra
  ensure_no_clash s e config.max_candidates config.first_candidate_version
  ok (save_experiment s experiment_id e.application_id config none "running")
