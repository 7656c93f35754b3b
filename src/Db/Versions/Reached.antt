-- ===== src/Db/Versions/Reached.antt =====
-- Every session in which experiments are created, resumed with a larger budget and run
-- (src/neuroforge/db/repository.py, src/neuroforge/cli/main.py), and the version numbers in it.
use neuro_forge.Base.{
  ℕ, zero, suc, ◌+◌, String, Bool, true, false, Option, none, some, inl, inr, [], find-All, ◌≡◌,
  refl, sym, subst, arith, Option-cases, ok, Returns, Returns-ok, ◌>>=◌, ◌>>◌, or_raise,
}
use neuro_forge.Db.{
  GenomeRecord, StoredConfig, StoredResult, ExperimentRecord, Session, get_genome_record,
  save_genome, get_experiment,
}
use neuro_forge.Db.Experiments.{
  save_experiment, candidate_version_clash, raise_clash, extended, ensure_no_clash,
  resume_experiment, unknown_experiment, raise_clash,
}
use neuro_forge.Db.Versions.{is_numbered, AllApart, no_rows}
use neuro_forge.Db.Versions.Written.{
  numbered, numbered_rows, create-AllApart, report-AllApart, grown-AllApart,
}

pub data Step : Session → Session → Type 0 where
  creates :
      (s : Session) (experiment_id app : String) (config : StoredConfig)
      → get_experiment s experiment_id ≡ none
      → Step s (save_experiment s experiment_id app (numbered s app config) none "created")
  resumes :
      (s : Session) (lock_is_held : Bool) (experiment_id : String) (already generations extra : ℕ)
      {s' : Session}
      → resume_experiment s lock_is_held experiment_id already generations extra ≡ ok s'
      → Step s s'
  -- A run writes the status and the result of a row, with the config that it holds.
  reports :
      (s : Session) (experiment_id : String) (e : ExperimentRecord) (result : Option StoredResult)
      (status : String)
      → get_experiment s experiment_id ≡ some e
      → Step s (save_experiment s experiment_id e.application_id e.config result status)
  saves : (s : Session) (g : GenomeRecord) → Step s (save_genome s g)

pub data Reach (first : Session) : Session → Type 0 where
  start : Reach first first
  next : {s t : Session} → Reach first s → Step s t → Reach first t

resume-AllApart :
    (s : Session) (lock_is_held : Bool) (experiment_id : String) (already generations extra : ℕ)
    → AllApart s.experiments
    → Returns
        (λ s'. AllApart s'.experiments)
        (resume_experiment s lock_is_held experiment_id already generations extra)
unfolding resume_experiment ensure_no_clash extended is_numbered
resume-AllApart s true experiment_id already generations extra v = tt
resume-AllApart s false experiment_id already generations extra v =
    by_row (get_experiment s experiment_id) refl
  where
    by_row :
        (o : Option ExperimentRecord)
        → get_experiment s experiment_id ≡ o
        → Returns
            (λ s'. AllApart s'.experiments)
            (or_raise o (unknown_experiment experiment_id) >>= λ e.
              ensure_no_clash s e (already + extra) e.config.first_candidate_version
              >> ok (
                  save_experiment s experiment_id e.application_id
                    (extended e.config already generations extra)
                    none
                    "running"))
    by_row none found = tt
    by_row (some e) found = by_first e.config.first_candidate_version refl (
        find-All (λ x. is_numbered x.config.first_candidate_version ≡ true) _ s.experiments e found
          (numbered_rows v))
      where
        config : StoredConfig
        config = extended e.config already generations extra

        by_clash :
            (first : ℕ) (c : Option String)
            → candidate_version_clash s e.experiment_id e.application_id
                (suc first)
                (already + extra)
              ≡ c
            → e.config.first_candidate_version ≡ some (suc first)
            → Returns
                (λ s'. AllApart s'.experiments)
                (raise_clash e.experiment_id (already + extra) c
                  >> ok (save_experiment s experiment_id e.application_id config none "running"))
        by_clash first none no_clash p =
            grown-AllApart s experiment_id e config first found p p no_clash v
        by_clash first (some other) clash p = tt

        by_first :
            (o : Option ℕ)
            → e.config.first_candidate_version ≡ o
            → is_numbered o ≡ true
            → Returns
                (λ s'. AllApart s'.experiments)
                (ensure_no_clash s e (already + extra) o
                  >> ok (save_experiment s experiment_id e.application_id config none "running"))
        by_first none p n = cc
        by_first (some zero) p n = absurd (ground arith)
        by_first (some (suc first)) p n = by_clash first _ refl p

pub save_genome_keeps :
    (s : Session) (g : GenomeRecord) → (save_genome s g).experiments ≡ s.experiments
unfolding save_genome
save_genome_keeps s g = elim (Option-cases (get_genome_record s g.hash)) [
  | inl absent ↦ rw (absent, save_genome) refl
  | inr (old, there) ↦ rw (there, save_genome) refl
]

Step-AllApart : {s t : Session} → Step s t → AllApart s.experiments → AllApart t.experiments
Step-AllApart (creates s e app config absent) v = create-AllApart s e app config absent v
Step-AllApart (resumes s l e a g x eq) v =
    Returns-ok (λ u. AllApart u.experiments) _ _ eq (resume-AllApart s l e a g x v)
Step-AllApart (reports s i e r st found) v = report-AllApart s i e r st found v
Step-AllApart (saves s g) v = subst AllApart (sym (save_genome_keeps s g)) v

-- In every session that creations, resumptions and runs of experiments reach from one without
-- experiments, no version number of an application is reserved by two experiments.
pub Reach-AllApart :
    {first s : Session} → first.experiments ≡ [] → Reach first s → AllApart s.experiments
Reach-AllApart e start = subst AllApart (sym e) no_rows
Reach-AllApart e (next r st) = Step-AllApart st (Reach-AllApart e r)
