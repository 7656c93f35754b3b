-- ===== src/Lifecycle/Baseline.antt =====
-- The genome that an experiment starts from (src/neuroforge/promotion/lifecycle.py). How Python splits
-- `<system>@v<N>` is a parameter: the name, and the number where it is one.
use neuro_forge.Base.{
  ℕ, String, not, Option, none, some, find, nat_eq, ◌==◌, if◌then◌else◌, Result, ok, err,
}
use neuro_forge.Db.{GenomeRecord, Session, get_genome_record, list_genomes_for_system}
use neuro_forge.Lifecycle.Log.{original_baseline}
use neuro_forge.Lifecycle.Change.{ProductionError, unknown_baseline, expected_baseline}

unfoldable pub genome_of_version : Session → String → ℕ → Option GenomeRecord
genome_of_version s sys n = find (λ g. nat_eq g.version n) (list_genomes_for_system s sys)

-- A genome that is named as `<system>@v<N>`.
unfoldable pub resolve_version :
    Session → String → String → String → Option ℕ → Result ProductionError (Option GenomeRecord)
resolve_version s sys spec name none = err (unknown_baseline spec)
resolve_version s sys spec name (some n) =
    if not (name == sys) then err (unknown_baseline spec) else elim (genome_of_version s sys n) [
      | none ↦ err (unknown_baseline spec)
      | some g ↦ ok (some g)
    ]

-- A genome that is named by its hash.
unfoldable pub resolve_hash :
    Session → String → String → Result ProductionError (Option GenomeRecord)
resolve_hash s sys spec = elim (get_genome_record s spec) [
  | none ↦ err (unknown_baseline spec)
  | some g ↦ if not (g.system_id == sys) then err (unknown_baseline spec) else ok (some g)
]

module _ (split_version : String → Option (String × Option ℕ)) where
  unfoldable pub resolve_baseline :
      Session → String → String → Result ProductionError (Option GenomeRecord)
  resolve_baseline s sys spec =
      if spec == "champion"
      then ok (expected_baseline s sys)
      else if spec == "original"
      then ok (original_baseline s sys)
      else elim (split_version spec) [
        | some (name, version) ↦ resolve_version s sys spec name version
        | none ↦ resolve_hash s sys spec
      ]
