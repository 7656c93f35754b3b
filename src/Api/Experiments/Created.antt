-- ===== src/Api/Experiments/Created.antt =====
-- What the creation of an experiment leaves (src/apps/api/neuroforge_api/main.py).
use neuro_forge.Base.{
  String, Bool, true, false, Option, none, some, List, [], ◌∷◌, find, nat_eq, ◌==◌, if◌then◌else◌,
  Result, ok, err, ◌>>=◌, ◌>>◌, raise_if, or_raise, is_some, Returns, ◌≡◌, refl, sym, ap, ◌∙◌,
  subst, arith, ==_refl,
}
use mathlib.Core.Option
use neuro_forge.Datasets.{DatasetVersion}
use neuro_forge.Datasets.Evolution.{DatasetError}
use neuro_forge.Db.{
  GenomeRecord, StoredConfig, StoredResult, ExperimentRecord, Session, list_genomes_for_system,
  save_genome, get_experiment,
}
use neuro_forge.Db.Experiments.{write_experiment, save_experiment}
use neuro_forge.Db.Versions.Reached.{Step, Reach, save_genome_keeps}
use neuro_forge.Lifecycle.Change.{ProductionError}
use neuro_forge.Lifecycle.Baseline.{resolve_baseline}
use neuro_forge.Store.{
  Store, get_application, upsert_application, id_or_default, save_dataset_version,
  latest_dataset_version,
}
use neuro_forge.Api.Auth.{Principal}
use neuro_forge.Api.Endpoint.{ApiState, HttpError, http_error, production_refused, as_http, audited}
use neuro_forge.Api.Experiments.{
  ExperimentCreateRequest, Domains, other_domain, of_other_domain, original_genome, with_original,
  with_dataset, config_of, check_config, store_experiment, create_experiment,
}

-- The hash of the baseline that the row of an experiment names.
abbrev pub baseline_in : Session → String → Option (Option String)
baseline_in s id = Option.map (λ e. e.config.baseline_hash) (get_experiment s id)

baseline-write :
    (id app : String) (config : StoredConfig) (result : Option StoredResult) (status : String)
    (es : List ExperimentRecord)
    → Option.map
        (λ e. e.config.baseline_hash)
        (find (λ e. e.experiment_id == id) (write_experiment id app config result status es))
      ≡ some config.baseline_hash
unfolding write_experiment
baseline-write id app config result status [] = ground (arith, ==_refl id)
baseline-write id app config result status (e ∷ es) =
    ground (arith, baseline-write id app config result status es)

upsert_keeps :
    {F : Type 0} (st : Store F) (id name domain description : String)
    → (upsert_application st id name domain description).session ≡ st.session
unfolding upsert_application
upsert_keeps st id name domain description = ground arith

dataset_keeps :
    {F : Type 0} (st : Store F) (d : DatasetVersion F)
    → (save_dataset_version st d).session ≡ st.session
unfolding save_dataset_version
dataset_keeps st d = ground arith

module _ {F Spec : Type 0} (env : Domains F Spec) (body : ExperimentCreateRequest) where
  with_original-Reach : (s : Session) → Reach s (with_original env s body.system_id)
  unfolding with_original
  with_original-Reach s =
      by_first (find (λ g. nat_eq g.version 1) (list_genomes_for_system s body.system_id))
    where
      after : Option GenomeRecord → Session
      after o = elim o [ some g ↦ s | none ↦ save_genome s (original_genome env body.system_id) ]

      by_first : (o : Option GenomeRecord) → Reach s (after o)
      by_first (some g) = Reach.start
      by_first none = Reach.next Reach.start (Step.saves s (original_genome env body.system_id))

  with_original_keeps :
      (s : Session) → (with_original env s body.system_id).experiments ≡ s.experiments
  unfolding with_original
  with_original_keeps s =
      by_first (find (λ g. nat_eq g.version 1) (list_genomes_for_system s body.system_id))
    where
      after : Option GenomeRecord → Session
      after o = elim o [ some g ↦ s | none ↦ save_genome s (original_genome env body.system_id) ]

      by_first : (o : Option GenomeRecord) → (after o).experiments ≡ s.experiments
      by_first (some g) = refl
      by_first none = save_genome_keeps s (original_genome env body.system_id)

  with_dataset_keeps :
      (st : Store F) (dataset_id : String) (o : Option (DatasetVersion F))
      → Returns (λ ready. ready.session ≡ st.session) (with_dataset env st body dataset_id o)
  unfolding with_dataset
  with_dataset_keeps st dataset_id none =
      by_seed (env.seed_dataset body.domain dataset_id body.seed)
    where
      outcome : Result DatasetError (DatasetVersion F) → Result HttpError (Store F)
      outcome r = elim r [
        | ok d ↦ ok (save_dataset_version st d)
        | err e ↦ err (http_error 500 dataset_id)
      ]

      by_seed :
          (r : Result DatasetError (DatasetVersion F))
          → Returns (λ ready. ready.session ≡ st.session) (outcome r)
      by_seed (ok d) = dataset_keeps st d
      by_seed (err e) = tt
  with_dataset_keeps st dataset_id (some d) =
      by_domain (of_other_domain env d.challenges body.domain)
    where
      by_domain :
          (b : Bool)
          → Returns
              (λ (ready : Store F). ready.session ≡ st.session)
              (if b then err (http_error 400 dataset_id) else ok st)
      by_domain true = tt
      by_domain false = refl

  module _ (st : ApiState F) (p : Principal) where
    before : Session
    before = st.store.session

    founded : Store F
    founded =
        let known : Store F =
          upsert_application st.store body.system_id body.system_id body.domain "" in
        record known { session = with_original env known.session body.system_id }

    founded-Reach : Reach before founded.session
    unfolding before founded
    founded-Reach =
        subst (λ s. Reach before (with_original env s body.system_id))
          (sym (upsert_keeps st.store body.system_id body.system_id body.domain ""))
          (with_original-Reach before)

    founded_keeps : founded.session.experiments ≡ before.experiments
    unfolding before founded
    founded_keeps =
        with_original_keeps
          (upsert_application st.store body.system_id body.system_id body.domain "").session
        ∙ ap (λ s. s.experiments)
            (upsert_keeps st.store body.system_id body.system_id body.domain "")

    -- The session that a creation leaves is reached by steps of which the last writes the row with the
    -- numbers that are free, and the row names the baseline.
    pub record IsCreated (after : ApiState F) (baseline : GenomeRecord) : Type 0 where
      pub reached : Reach st.store.session after.store.session
      pub from_baseline :
          baseline_in after.store.session body.experiment_id ≡ some (some baseline.hash)

    finish :
        (ready : Store F) (baseline : GenomeRecord)
        → get_experiment before body.experiment_id ≡ none
        → ready.session ≡ founded.session
        → IsCreated
            (audited
              (record st { store = store_experiment env ready body baseline })
              p
              "create_experiment"
              body.experiment_id)
            baseline
    unfolding before store_experiment config_of save_experiment
    finish ready baseline absent q = record {
      reached =
          subst
            (λ s. Reach before (
              save_experiment s body.experiment_id body.system_id (config_of env body s baseline)
                none "created"))
            (sym q)
            (Reach.next founded-Reach (
              Step.creates founded.session body.experiment_id body.system_id
                (config_of env body founded.session baseline)
                (ap (find (λ r. r.experiment_id == body.experiment_id)) founded_keeps ∙ absent)));
      from_baseline =
          baseline-write body.experiment_id body.system_id
            (config_of env body ready.session baseline) none "created" ready.session.experiments;
    }

    abbrev answer_of : Store F → GenomeRecord → Result HttpError (ApiState F × GenomeRecord)
    answer_of ready baseline = ok (
      audited (record st { store = store_experiment env ready body baseline }) p "create_experiment"
          body.experiment_id,
      baseline,
    )

    abbrev pub Creates : ApiState F × GenomeRecord → Type 0
    Creates (after, baseline) = IsCreated after baseline

    abbrev dataset_id : String
    dataset_id = id_or_default body.dataset_id body.system_id

    by_config :
        (ready : Store F) (baseline : GenomeRecord) (r : Result HttpError (Unit {0}))
        → get_experiment before body.experiment_id ≡ none
        → ready.session ≡ founded.session
        → Returns Creates (r >> answer_of ready baseline)
    by_config ready baseline (err e) absent q = tt
    by_config ready baseline (ok tt) absent q = finish ready baseline absent q

    by_dataset :
        (baseline : GenomeRecord) (r : Result HttpError (Store F))
        → get_experiment before body.experiment_id ≡ none
        → Returns (λ ready. ready.session ≡ founded.session) r
        → Returns Creates (r >>= λ ready. check_config env body >> answer_of ready baseline)
    by_dataset baseline (err e) absent q = tt
    by_dataset baseline (ok ready) absent q =
        by_config ready baseline (check_config env body) absent q

    by_baseline :
        (r : Result ProductionError (Option GenomeRecord))
        → get_experiment before body.experiment_id ≡ none
        → Returns Creates (
            as_http production_refused r >>= λ resolved.
            or_raise resolved (http_error 400 body.system_id) >>= λ baseline.
            with_dataset env founded body dataset_id (latest_dataset_version founded dataset_id)
            >>= λ ready. check_config env body >> answer_of ready baseline)
    by_baseline (err e) absent = tt
    by_baseline (ok none) absent = tt
    by_baseline (ok (some baseline)) absent =
        by_dataset baseline
          (with_dataset env founded body dataset_id (latest_dataset_version founded dataset_id))
          absent (with_dataset_keeps founded dataset_id (latest_dataset_version founded dataset_id))

    -- A creation through the web API that is answered comes of steps that keep the version numbers of
    -- experiments apart, and the row of the experiment names the baseline of the answer.
    pub create_experiment-IsCreated : Returns Creates (create_experiment env body st p)
    unfolding create_experiment before founded
    create_experiment-IsCreated =
        by_id (get_experiment st.store.session body.experiment_id) refl
          (other_domain (get_application st.store body.system_id) body.domain)
      where
        by_id :
            (o : Option ExperimentRecord)
            → get_experiment before body.experiment_id ≡ o
            → (b : Bool)
            → Returns Creates (
                raise_if (is_some o) (http_error 409 body.experiment_id)
                >> (raise_if b (http_error 400 body.domain)
                    >> (as_http production_refused (
                          resolve_baseline env.split_version founded.session body.system_id
                            body.baseline)
                        >>= λ resolved.
                            or_raise resolved (http_error 400 body.system_id) >>= λ baseline.
                            with_dataset env founded body dataset_id
                              (latest_dataset_version founded dataset_id)
                            >>= λ ready. check_config env body >> answer_of ready baseline)))
        by_id (some e) found b = tt
        by_id none absent true = tt
        by_id none absent false = by_baseline _ absent
