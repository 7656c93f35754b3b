-- ===== src/Api/Experiments.antt =====
-- The creation of an experiment through the web API (src/apps/api/neuroforge_api/main.py). Parameters are
-- the domains, the hash of an application's first genome, how Python splits a text, and what is refused
-- of the objective weights, which are floats that only the search reads.
pub mod Created
use neuro_forge.Base.{
  ℕ, String, Bool, true, false, not, ◌&&◌, Option, none, some, List, [], ◌∷◌, map, find, nat_eq,
  ◌==◌, if◌then◌else◌, Result, ok, err, ◌>>=◌, ◌>>◌, raise_if, or_raise, is_some,
}
use neuro_forge.Base.Float.{Floats}
use neuro_forge.Genomes.{generated}
use neuro_forge.Promotion.Safety.{is_empty}
use neuro_forge.Datasets.{Challenge, DatasetVersion}
use neuro_forge.Datasets.Evolution.{DatasetError}
use neuro_forge.Db.{
  GenomeRecord, StoredConfig, Session, list_genomes_for_system, save_genome, get_experiment,
}
use neuro_forge.Db.Experiments.{save_experiment, next_candidate_version}
use neuro_forge.Lifecycle.Baseline.{resolve_baseline}
use neuro_forge.Experiments.Configure.{ConfigError, build_search_space}
use neuro_forge.Store.{
  ApplicationRecord, Store, get_application, upsert_application, id_or_default,
  save_dataset_version, latest_dataset_version,
}
use neuro_forge.Api.Endpoint.{
  ApiState, HttpError, http_error, production_refused, as_http, audited, Body,
}

-- `ExperimentCreateRequest`, less what only the search reads.
pub record ExperimentCreateRequest : Type 0 where
  pub experiment_id : String
  pub system_id : String
  pub domain : String
  pub dataset_id : Option String
  pub baseline : String
  pub seed : ℕ
  pub batch_size : ℕ
  pub max_batches : ℕ
  -- The one of the budget, 200 where no budget is given.
  pub max_candidates : ℕ
  pub search_dimensions : List String

pub record Domains (F Spec : Type 0) : Type 0 where
  -- `seed_dataset` of 300 challenges, with a domain, an id and a seed.
  pub seed_dataset : String → String → ℕ → Result DatasetError (DatasetVersion F)
  pub search_space : String → List (String × Spec)
  pub objectives_error : ExperimentCreateRequest → Option String
  pub original_hash : String → String
  pub section_of : String → String
  -- `challenge_id.split("-")[0]`
  pub id_prefix : String → String
  pub split_version : String → Option (String × Option ℕ)

-- `DatasetVersion.domain_name`, of the prefix of an id.
unfoldable pub domain_of_prefix : String → String
domain_of_prefix prefix =
    if prefix == "sql"
    then "sql-agent"
    else if prefix == "ra"
    then "research-agent"
    else "forge-support"

unfoldable pub other_domain : Option ApplicationRecord → String → Bool
other_domain none domain = false
other_domain (some a) domain = not (a.domain_name == domain)

module _ {F Spec : Type 0} (env : Domains F Spec) where
  -- `dataset.challenges and dataset.domain_name != body.domain`
  unfoldable pub of_other_domain : List (Challenge F) → String → Bool
  of_other_domain [] domain = false
  of_other_domain (c ∷ cs) domain = not (domain_of_prefix (env.id_prefix c.challenge_id) == domain)

  abbrev pub original_genome : String → GenomeRecord
  original_genome system_id = record {
    hash = env.original_hash system_id;
    system_id = system_id;
    version = 1;
    parent_hash = none;
    generation = 0;
    status = generated;
  }

  -- The application's v1 is saved unless it has one.
  unfoldable pub with_original : Session → String → Session
  with_original s system_id =
      elim (find (λ g. nat_eq g.version 1) (list_genomes_for_system s system_id)) [
        | some g ↦ s
        | none ↦ save_genome s (original_genome system_id)
      ]

  -- The dataset is seeded if there is none, and belongs to the domain otherwise.
  unfoldable pub with_dataset :
      Store F
      → ExperimentCreateRequest
      → String
      → Option (DatasetVersion F)
      → Result HttpError (Store F)
  with_dataset st body dataset_id none = elim (env.seed_dataset body.domain dataset_id body.seed) [
    | ok d ↦ ok (save_dataset_version st d)
    | err e ↦ err (http_error 500 dataset_id)
  ]
  with_dataset st body dataset_id (some d) =
      if of_other_domain d.challenges body.domain then err (http_error 400 dataset_id) else ok st

  unfoldable pub config_of : ExperimentCreateRequest → Session → GenomeRecord → StoredConfig
  config_of body s baseline = record {
    domain_name = body.domain;
    baseline_hash = some baseline.hash;
    first_candidate_version = some (next_candidate_version s body.system_id);
    max_candidates = body.max_candidates;
    max_batches = body.max_batches;
    batch_size = body.batch_size;
    dataset_id = some (id_or_default body.dataset_id body.system_id);
  }

  -- `ConfigError` of the dimensions and of the weights.
  unfoldable pub check_config : ExperimentCreateRequest → Result HttpError (Unit {0})
  check_config body =
      elim (build_search_space env.section_of (env.search_space body.domain)
        body.search_dimensions) [
          | err e ↦ err (http_error 400 body.domain)
          | ok space ↦ elim (env.objectives_error body) [
            | none ↦ ok tt
            | some message ↦ err (http_error 400 message)
          ]
        ]

  -- The row is written, with the numbers that are free.
  unfoldable pub store_experiment : Store F → ExperimentCreateRequest → GenomeRecord → Store F
  store_experiment st body baseline = record st {
    session =
        save_experiment st.session body.experiment_id body.system_id
          (config_of body st.session baseline) none "created";
  }

  -- `_create_experiment`, for an operator.
  unfoldable pub create_experiment : ExperimentCreateRequest → Body F GenomeRecord
  create_experiment body st p = do
    raise_if (is_some (get_experiment st.store.session body.experiment_id))
        (http_error 409 body.experiment_id)
    raise_if (other_domain (get_application st.store body.system_id) body.domain)
        (http_error 400 body.domain)
    let known = upsert_application st.store body.system_id body.system_id body.domain ""
    let founded = record known { session = with_original known.session body.system_id }
    resolved ←
        as_http production_refused
          (resolve_baseline env.split_version founded.session body.system_id body.baseline)
    baseline ← or_raise resolved (http_error 400 body.system_id)
    let dataset_id = id_or_default body.dataset_id body.system_id
    ready ← with_dataset founded body dataset_id (latest_dataset_version founded dataset_id)
    check_config body
    ok (
      audited (record st { store = store_experiment ready body baseline }) p "create_experiment"
          body.experiment_id,
      baseline,
    )
