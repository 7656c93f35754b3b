-- ===== src/Store.antt =====
-- The rows of the datasets, the applications and the holdout measurements
-- (src/neuroforge/db/models.py), beside those of the pipeline, with their queries
-- (src/neuroforge/db/repository.py).
use neuro_forge.Base.{
  ℕ, String, Bool, ◌&&◌, Option, none, some, List, [], ◌∷◌, ◌++◌, find, ◌==◌, nat_eq, ltb, joined,
  if◌then◌else◌,
}
use neuro_forge.Db.{StoredConfig, Session}
use neuro_forge.Datasets.{DatasetVersion}
use neuro_forge.Promotion.Holdout.{HoldoutEvidence}

pub record ApplicationRecord : Type 0 where
  pub id : String
  pub name : String
  pub domain_name : String
  pub description : String

pub record HoldoutEvaluationRecord (F : Type 0) : Type 0 where
  pub genome_hash : String
  pub experiment_id : Option String
  pub dataset_id : String
  pub dataset_version : ℕ
  pub evidence : HoldoutEvidence F

pub record Store (F : Type 0) : Type 0 where
  pub session : Session
  pub applications : List ApplicationRecord
  pub datasets : List (DatasetVersion F)
  pub evaluations : List (HoldoutEvaluationRecord F)

-- `config.dataset_id or f"{application_id}-dataset"`
abbrev pub id_or_default : Option String → String → String
id_or_default none app = joined app "-dataset"
id_or_default (some t) app = if t == "" then joined app "-dataset" else t

module _ {F : Type 0} where
  unfoldable pub get_application : Store F → String → Option ApplicationRecord
  get_application st app_id = find (λ a. a.id == app_id) st.applications

  unfoldable pub upsert_application : Store F → String → String → String → String → Store F
  upsert_application st app_id name domain_name description = elim (get_application st app_id) [
    | some a ↦ st
    | none ↦ record st {
      applications =
          st.applications
          ++ record {
            id = app_id;
            name = name;
            domain_name = domain_name;
            description = description;
          }
            ∷ [];
    }
  ]

  abbrev pub is_version : String → ℕ → DatasetVersion F → Bool
  is_version dataset_id version d = d.dataset_id == dataset_id && nat_eq d.version version

  unfoldable pub get_dataset_version : Store F → String → ℕ → Option (DatasetVersion F)
  get_dataset_version st dataset_id version = find (is_version dataset_id version) st.datasets

  -- A pair of id and version is one row: what is stored under it stays.
  unfoldable pub save_dataset_version : Store F → DatasetVersion F → Store F
  save_dataset_version st d = elim (get_dataset_version st d.dataset_id d.version) [
    | some old ↦ st
    | none ↦ record st { datasets = st.datasets ++ d ∷ [] }
  ]

  -- `ORDER BY version DESC LIMIT 1`
  abbrev pub newer : DatasetVersion F → Option (DatasetVersion F) → Option (DatasetVersion F)
  newer d none = some d
  newer d (some e) = if ltb d.version e.version then some e else some d

  unfoldable pub latest_of : String → List (DatasetVersion F) → Option (DatasetVersion F)
  latest_of dataset_id [] = none
  latest_of dataset_id (d ∷ ds) =
      let rest = latest_of dataset_id ds in
      if d.dataset_id == dataset_id then newer d rest else rest

  unfoldable pub latest_dataset_version : Store F → String → Option (DatasetVersion F)
  latest_dataset_version st dataset_id = latest_of dataset_id st.datasets

  unfoldable pub dataset_for_experiment :
      Store F → String → StoredConfig → Option (DatasetVersion F)
  dataset_for_experiment st app config =
      latest_dataset_version st (id_or_default config.dataset_id app)

  -- The key under which one measurement is stored.
  abbrev pub is_measurement : String → String → ℕ → HoldoutEvaluationRecord F → Bool
  is_measurement h dataset_id version r =
      r.genome_hash == h && (r.dataset_id == dataset_id && nat_eq r.dataset_version version)

  unfoldable pub get_holdout_evaluation :
      Store F → String → String → ℕ → Option (HoldoutEvaluationRecord F)
  get_holdout_evaluation st h dataset_id version =
      find (is_measurement h dataset_id version) st.evaluations

  unfoldable pub save_holdout_evaluation :
      Store F → String → Option String → HoldoutEvidence F → Store F
  save_holdout_evaluation st h experiment_id evidence = record st {
    evaluations =
        st.evaluations
        ++ record {
          genome_hash = h;
          experiment_id = experiment_id;
          dataset_id = evidence.dataset_id;
          dataset_version = evidence.dataset_version;
          evidence = evidence;
        }
          ∷ [];
  }
