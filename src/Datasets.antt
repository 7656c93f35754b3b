-- ===== src/Datasets.antt =====
-- Datasets of challenges (src/neuroforge/datasets/): the splits, the guard of the holdout split, and
-- how a dataset grows. What a domain generates and accepts is a parameter, and so is the hash that
-- draws a number in [0, 1) from a seed and an id (`stable_rng`, SHA-256 and the Mersenne twister).
pub mod Holdout
pub mod Evolution
pub mod Guarded
pub mod Growth
pub mod Examples
use neuro_forge.Base.{ℕ, String, Bool, Option, List, keep, ◌==◌}

-- `neuroforge.domains.base.Challenge`, less the texts that only a model reads.
pub record Challenge (F : Type 0) : Type 0 where
  pub challenge_id : String
  pub category : String
  pub difficulty : F
  pub split : String

pub record DatasetVersion (F : Type 0) : Type 0 where
  pub dataset_id : String
  pub version : ℕ
  pub parent_version : Option ℕ
  pub source : String
  pub challenges : List (Challenge F)
  pub difficulty_score : F
  pub validated : Bool

module _ {F : Type 0} where
  abbrev pub in_split : String → Challenge F → Bool
  in_split name c = c.split == name

  -- `DatasetVersion.split`
  unfoldable pub split_of : DatasetVersion F → String → List (Challenge F)
  split_of d name = keep (in_split name) d.challenges
