-- ===== src/Db/Tables.antt =====
-- The rows of the tables that the promotion pipeline reads and writes
-- (src/neuroforge/db/models.py). Columns that are only displayed are left out.
use neuro_forge.Base.{ℕ, String, Bool, Option, List}
use neuro_forge.Genomes.{PromotionStatus}

pub record GenomeRecord : Type 0 where
  pub hash : String
  pub system_id : String
  pub version : ℕ
  pub parent_hash : Option String
  pub generation : ℕ
  pub status : PromotionStatus

pub record PromotionRecord : Type 0 where
  pub genome_hash : String
  pub experiment_id : Option String
  pub approved : Bool
  pub next_status : PromotionStatus

pub record CanaryRecord : Type 0 where
  pub baseline_hash : String
  pub candidate_hash : String
  pub rollback_triggered : Bool

-- `action` is `none` on rows that were written before the column existed.
pub record ApprovalRecord : Type 0 where
  pub genome_hash : String
  pub experiment_id : Option String
  pub approved_by : String
  pub action : Option String

-- What the stored `config` column is read for, by the pipeline and the command line.
pub record StoredConfig : Type 0 where
  pub domain_name : String
  pub baseline_hash : Option String
  pub first_candidate_version : Option ℕ
  pub max_candidates : ℕ
  pub max_batches : ℕ
  pub batch_size : ℕ
  pub dataset_id : Option String

-- What the stored `result` column is read for. The genomes in it are named by their hashes.
pub record StoredResult : Type 0 where
  pub dataset_id : Option String
  pub dataset_version : Option ℕ
  pub baseline_genome : String
  pub best_genome : GenomeRecord

pub record ExperimentRecord : Type 0 where
  pub experiment_id : String
  pub application_id : String
  pub status : String
  pub config : StoredConfig
  pub result : Option StoredResult

pub record Session : Type 0 where
  pub genomes : List GenomeRecord
  pub experiments : List ExperimentRecord
  pub decisions : List PromotionRecord
  pub canaries : List CanaryRecord
  pub approvals : List ApprovalRecord
