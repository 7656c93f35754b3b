-- ===== src/Db/Versions/Written.antt =====
-- Rows that are written beside the others, and keep apart (src/neuroforge/db/repository.py).
use neuro_forge.Base.{
  ℕ, suc, ◌≤◌, String, Bool, true, false, not, ◌&&◌, Option, none, some, inl, inr, List, [], ◌∷◌,
  find, All, All-mono, All-both, All-unkeep, find-All, ◌≡◌, refl, sym, subst, ◌==◌, arith, eq_iff,
  Bool-cases, Option-cases, if◌then◌else◌, ap, ◌∙◌,
}
use mathlib.Core.Option.{some_inj}
use neuro_forge.Db.{StoredConfig, StoredResult, ExperimentRecord, Session, get_experiment}
use neuro_forge.Db.Experiments.{
  updated_row, save_experiment, reserved_end, next_candidate_version, falls_inside,
  candidate_version_clash,
}
use neuro_forge.Db.Versions.{
  apart, is_numbered, AllApart, no_rows, row, new_row, FitsBeside, write-AllApart, apart_sym,
}
use neuro_forge.Db.Versions.Numbers.{next-All, next_at_least, first_clash-none}

-- A config that numbers its candidates from what is free, as a creation does.
abbrev pub numbered : Session → String → StoredConfig → StoredConfig
numbered s app config = record config {
  first_candidate_version = some (next_candidate_version s app);
}

-- The row that is written is the one that is found, or a new one.
abbrev row_for :
    String
    → String
    → StoredConfig
    → Option StoredResult
    → String
    → Option ExperimentRecord
    → ExperimentRecord
row_for experiment_id app config result status none =
    new_row experiment_id app config result status []
row_for experiment_id app config result status (some e) = updated_row e config result status

new_row-find :
    (experiment_id app : String) (config : StoredConfig) (result : Option StoredResult)
    (status : String) (es : List ExperimentRecord)
    → new_row experiment_id app config result status es
      ≡ row_for experiment_id app config result status
          (find (λ r. r.experiment_id == experiment_id) es)
new_row-find experiment_id app config result status [] = refl
new_row-find experiment_id app config result status (x ∷ es) =
    elim (Bool-cases (x.experiment_id == experiment_id)) [
      | inl same ↦ rw same refl
      | inr other ↦ rw other (new_row-find experiment_id app config result status es)
    ]

-- The row that is found is apart from those of another id.
found-FitsBeside :
    (experiment_id : String) (es : List ExperimentRecord) (e : ExperimentRecord)
    → find (λ r. r.experiment_id == experiment_id) es ≡ some e
    → AllApart es
    → FitsBeside experiment_id e es
found-FitsBeside experiment_id [] e h no_rows = tt
found-FitsBeside experiment_id (x ∷ es) e h (row n beside rest) =
    at_head (x.experiment_id == experiment_id) refl h
      (λ g. found-FitsBeside experiment_id es e g rest)
  where
    at_head :
        (b : Bool)
        → (x.experiment_id == experiment_id) ≡ b
        → (if b then some x else find (λ r. r.experiment_id == experiment_id) es) ≡ some e
        → (find (λ r. r.experiment_id == experiment_id) es ≡ some e → FitsBeside experiment_id e es)
        → FitsBeside experiment_id e (x ∷ es)
    at_head true same g go =
        subst (λ r. FitsBeside experiment_id r (x ∷ es)) (some_inj.0 g)
          ((λ f. cc), All-mono (λ y. apart x y ≡ true) _ (λ y a _. a) es beside)
    at_head false other g go = (
      λ _.
          subst (λ b. b ≡ true) (apart_sym x e)
            (find-All (λ y. apart x y ≡ true) (λ r. r.experiment_id == experiment_id) es e g
              beside),
      go g,
    )

-- A row of an application that starts at a free number is apart from all that is there.
fresh-apart :
    (s : Session) (experiment_id app : String) (config : StoredConfig) (x : ExperimentRecord)
    → ((x.application_id == app) ≡ true → reserved_end x.config ≤ next_candidate_version s app)
    → (x.experiment_id == experiment_id) ≡ false
    → apart (new_row experiment_id app (numbered s app config) none "created" []) x ≡ true
unfolding apart
fresh-apart s experiment_id app config x below other = ground (
  arith,
  below,
  next_at_least s app,
  eq_iff experiment_id x.experiment_id,
  eq_iff x.experiment_id experiment_id,
  eq_iff app x.application_id,
  eq_iff x.application_id app,
)

-- A row that grows without a clash stays apart.
grown-apart :
    (e x : ExperimentRecord) (config : StoredConfig) (result : Option StoredResult)
    (status : String) (first : ℕ)
    → e.config.first_candidate_version ≡ some (suc first)
    → config.first_candidate_version ≡ some (suc first)
    → is_numbered x.config.first_candidate_version ≡ true
    → apart e x ≡ true
    → ((x.application_id == e.application_id) ≡ true
        → falls_inside (suc first) config.max_candidates x.config.first_candidate_version ≡ false)
    → apart (updated_row e config result status) x ≡ true
unfolding apart falls_inside is_numbered
grown-apart e x config result status first p q n a clash =
    elim (Option-cases x.config.first_candidate_version) [
      | inl absent ↦ ground arith
      | inr (m, there) ↦ ground (
        arith,
        eq_iff e.application_id x.application_id,
        eq_iff x.application_id e.application_id,
      )
    ]

pub numbered_rows :
    {es : List ExperimentRecord}
    → AllApart es
    → All (λ x. is_numbered x.config.first_candidate_version ≡ true) es
numbered_rows no_rows = tt
numbered_rows (row n beside rest) = (n, numbered_rows rest)

-- A row is written that is apart from those of another id.
save-AllApart :
    (s : Session) (experiment_id app : String) (config : StoredConfig)
    (result : Option StoredResult) (status : String) (o : Option ExperimentRecord)
    → get_experiment s experiment_id ≡ o
    → is_numbered config.first_candidate_version ≡ true
    → FitsBeside experiment_id (row_for experiment_id app config result status o) s.experiments
    → AllApart s.experiments
    → AllApart (save_experiment s experiment_id app config result status).experiments
unfolding save_experiment
save-AllApart s experiment_id app config result status o found n fits v =
    write-AllApart experiment_id app config result status s.experiments n
      (subst (λ r. FitsBeside experiment_id r s.experiments)
        (sym (
          new_row-find experiment_id app config result status s.experiments
          ∙ ap (row_for experiment_id app config result status) found))
        fits)
      v

pub create-AllApart :
    (s : Session) (experiment_id app : String) (config : StoredConfig)
    → get_experiment s experiment_id ≡ none
    → AllApart s.experiments
    → AllApart
        (save_experiment s experiment_id app (numbered s app config) none "created").experiments
unfolding is_numbered
create-AllApart s experiment_id app config absent v =
    save-AllApart s experiment_id app (numbered s app config) none "created" none absent
      (ground (arith, next_at_least s app))
      (All-mono _ _ (λ x below other. fresh-apart s experiment_id app config x below other)
        s.experiments (next-All s app))
      v

-- A row that keeps its numbers stays apart.
pub report-AllApart :
    (s : Session) (experiment_id : String) (e : ExperimentRecord) (result : Option StoredResult)
    (status : String)
    → get_experiment s experiment_id ≡ some e
    → AllApart s.experiments
    → AllApart (save_experiment s experiment_id e.application_id e.config result status).experiments
unfolding apart
report-AllApart s experiment_id e result status found v =
    save-AllApart s experiment_id e.application_id e.config result status (some e) found
      (find-All (λ x. is_numbered x.config.first_candidate_version ≡ true) _ s.experiments e found
        (numbered_rows v))
      (found-FitsBeside experiment_id s.experiments e found v) v

found_id :
    (experiment_id : String) (es : List ExperimentRecord) (e : ExperimentRecord)
    → find (λ r. r.experiment_id == experiment_id) es ≡ some e
    → (e.experiment_id == experiment_id) ≡ true
found_id experiment_id [] e h = cc
found_id experiment_id (x ∷ es) e h = ground (arith, found_id experiment_id es e)

pub grown-AllApart :
    (s : Session) (experiment_id : String) (e : ExperimentRecord) (config : StoredConfig)
    (first : ℕ)
    → get_experiment s experiment_id ≡ some e
    → e.config.first_candidate_version ≡ some (suc first)
    → config.first_candidate_version ≡ some (suc first)
    → candidate_version_clash s e.experiment_id e.application_id (suc first) config.max_candidates
      ≡ none
    → AllApart s.experiments
    → AllApart (save_experiment s experiment_id e.application_id config none "running").experiments
unfolding candidate_version_clash is_numbered
grown-AllApart s experiment_id e config first found p q no_clash v =
    save-AllApart s experiment_id e.application_id config none "running" (some e) found
      (rw q (ground arith))
      (All-both (λ x. Free x × (is_numbered x.config.first_candidate_version ≡ true)) _ _
        (λ x k beside other.
          grown-apart e x config none "running" first p q k.1 (beside other) (λ same. k.0 (
            ground (
              arith,
              same,
              other,
              found_id experiment_id s.experiments e found,
              eq_iff e.experiment_id experiment_id,
              eq_iff x.experiment_id e.experiment_id,
              eq_iff x.experiment_id experiment_id,
            ))))
        s.experiments
        (All-both _ _ (λ x. Free x × (is_numbered x.config.first_candidate_version ≡ true))
          (λ x k n. (k, n)) s.experiments
          (All-unkeep _ _ s.experiments
            (first_clash-none (suc first) config.max_candidates _ no_clash))
          (numbered_rows v))
        (found-FitsBeside experiment_id s.experiments e found v))
      v
  where
    Free : ExperimentRecord → Type 0
    Free x =
        (x.application_id == e.application_id && not (x.experiment_id == e.experiment_id)) ≡ true
        → falls_inside (suc first) config.max_candidates x.config.first_candidate_version ≡ false
