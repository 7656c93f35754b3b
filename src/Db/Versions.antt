-- ===== src/Db/Versions.antt =====
-- The version numbers that experiments reserve (src/neuroforge/db/repository.py) and the rows that
-- keep them apart.
pub mod Numbers
pub mod Written
pub mod Reached
pub mod Examples
use neuro_forge.Base.{
  ℕ, suc, ◌+◌, ◌≤◌, max, String, Bool, true, false, not, ◌&&◌, ◌||◌, Option, none, some, List, [],
  ◌∷◌, keep, find, All, All-both, ◌≡◌, refl, subst, ◌==◌, leb, ltb, arith, eq_iff, Bool-cases,
  if◌then◌else◌, Result, ok, err,
}
use neuro_forge.Db.{
  GenomeRecord, StoredConfig, StoredResult, ExperimentRecord, Session, save_genome, get_experiment,
  list_genomes_for_system,
}
use neuro_forge.Db.Experiments.{
  updated_row, write_experiment, save_experiment, first_or_two, reserved_end, after_genomes,
  after_experiments, next_candidate_version, falls_inside, first_clash, candidate_version_clash,
  extended, ensure_no_clash, resume_experiment,
}

-- Two experiments have other ids, and reserve no version number of one application twice.
unfoldable pub apart : ExperimentRecord → ExperimentRecord → Bool
apart a b =
    not (a.experiment_id == b.experiment_id)
    && (not (a.application_id == b.application_id)
        || (leb (reserved_end a.config) (first_or_two b.config.first_candidate_version)
            || leb (reserved_end b.config) (first_or_two a.config.first_candidate_version)))

unfoldable pub is_numbered : Option ℕ → Bool
is_numbered none = false
is_numbered (some n) = leb 1 n

pub data AllApart : List ExperimentRecord → Type 0 where
  no_rows : AllApart []
  row :
      {e : ExperimentRecord} {es : List ExperimentRecord}
      → is_numbered e.config.first_candidate_version ≡ true
      → All (λ x. apart e x ≡ true) es
      → AllApart es
      → AllApart (e ∷ es)

pub apart_sym : (a b : ExperimentRecord) → apart a b ≡ apart b a
unfolding apart
apart_sym a b = ground (
  arith,
  eq_iff a.experiment_id b.experiment_id,
  eq_iff b.experiment_id a.experiment_id,
  eq_iff a.application_id b.application_id,
  eq_iff b.application_id a.application_id,
)

other_id :
    (e x : ExperimentRecord) (experiment_id : String)
    → (e.experiment_id == experiment_id) ≡ true
    → apart e x ≡ true
    → (x.experiment_id == experiment_id) ≡ false
unfolding apart
other_id e x experiment_id eq a = ground (
  arith,
  eq_iff e.experiment_id experiment_id,
  eq_iff x.experiment_id experiment_id,
  eq_iff e.experiment_id x.experiment_id,
)

-- What a row is apart from, if the ids differ.
abbrev pub FitsBeside : String → ExperimentRecord → List ExperimentRecord → Type 0
FitsBeside experiment_id r es =
    All (λ x. (x.experiment_id == experiment_id) ≡ false → apart r x ≡ true) es

module _ (experiment_id application_id : String) (config : StoredConfig)
    (result : Option StoredResult) (status : String) where
  abbrev written : List ExperimentRecord → List ExperimentRecord
  written es = write_experiment experiment_id application_id config result status es

  -- The row that is written.
  abbrev pub new_row : List ExperimentRecord → ExperimentRecord
  new_row [] = record {
    experiment_id = experiment_id;
    application_id = application_id;
    status = status;
    config = config;
    result = result;
  }
  new_row (e ∷ es) =
      let rest = new_row es in
      if e.experiment_id == experiment_id then updated_row e config result status else rest

  write-All :
      (P : ExperimentRecord → Type 0) (es : List ExperimentRecord)
      → P (new_row es)
      → All P es
      → All P (written es)
  unfolding write_experiment
  write-All P [] p ps = (p, tt)
  write-All P (e ∷ es) p ps =
      by_match (e.experiment_id == experiment_id) p (λ q. write-All P es q ps.1)
    where
      by_match :
          (b : Bool)
          → P (if b then updated_row e config result status else new_row es)
          → (P (new_row es) → All P (written es))
          → All P (if b then updated_row e config result status ∷ es else e ∷ written es)
      by_match true q rest = (q, ps.1)
      by_match false q rest = (ps.0, rest q)

  pub write-AllApart :
      (es : List ExperimentRecord)
      → is_numbered config.first_candidate_version ≡ true
      → FitsBeside experiment_id (new_row es) es
      → AllApart es
      → AllApart (written es)
  unfolding write_experiment
  write-AllApart [] n h no_rows = row n tt no_rows
  write-AllApart (e ∷ es) n h (row n' beside rest) =
      by_match (e.experiment_id == experiment_id) refl h.0 h.1 (λ f. write-AllApart es n f rest)
    where
      by_match :
          (b : Bool)
          → (e.experiment_id == experiment_id) ≡ b
          → (b ≡ false
              → apart (if b then updated_row e config result status else new_row es) e ≡ true)
          → FitsBeside experiment_id
              (if b then updated_row e config result status else new_row es)
              es
          → (FitsBeside experiment_id (new_row es) es → AllApart (written es))
          → AllApart (if b then updated_row e config result status ∷ es else e ∷ written es)
      by_match true eq own fits go =
          row n
            (All-both (λ x. apart e x ≡ true) _ _ (λ x a f. f (other_id e x experiment_id eq a)) es
              beside fits)
            rest
      by_match false eq own fits go =
          row n'
            (write-All (λ x. apart e x ≡ true) es
              (subst (λ b. b ≡ true) (apart_sym (new_row es) e) (own refl)) beside)
            (go fits)
