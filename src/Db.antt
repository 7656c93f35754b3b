-- ===== src/Db.antt =====
-- The rows that the promotion pipeline stores (src/neuroforge/db/models.py), and the queries and
-- writes over them (src/neuroforge/db/repository.py). A session is the content of the tables, in the
-- order of insertion: `created_at` and the auto-incremented `id` grow with each insert, so
-- `ORDER BY created_at, id` is this order.
mod Tables
pub mod Laws
pub mod Experiments
pub mod Versions
pub use Tables.{GenomeRecord, PromotionRecord, ApprovalRecord, CanaryRecord, StoredConfig}
pub use Tables.{StoredResult, ExperimentRecord, Session}
use neuro_forge.Base.{
  ℕ, ◌+◌, String, Bool, true, false, not, ◌&&◌, ◌||◌, Option, none, some, List, [], ◌∷◌, ◌++◌, map,
  keep, find, ◌==◌, leb, if◌then◌else◌,
}
use neuro_forge.Genomes.{
  PromotionStatus, canary, rolled_back, approved, is_promoted, in_production, is_canary,
}

-- `session.get(GenomeRecord, hash)`, by the primary key.
unfoldable pub find_genome : String → List GenomeRecord → Option GenomeRecord
find_genome h [] = none
find_genome h (g ∷ gs) = if g.hash == h then some g else find_genome h gs

abbrev pub get_genome_record : Session → String → Option GenomeRecord
get_genome_record s h = find_genome h s.genomes

-- A write to the `status` of the row with a hash; the loaded objects of one session are shared, so
-- later reads of the row see it.
pub write_status : String → PromotionStatus → List GenomeRecord → List GenomeRecord
write_status h st [] = []
write_status h st (g ∷ gs) =
    (if g.hash == h then record g { status = st } else g) ∷ write_status h st gs

unfoldable pub set_genome_status : Session → String → PromotionStatus → Session
unfolding write_status
set_genome_status s h st = record s { genomes = write_status h st s.genomes }

-- Insertion sort, stable: rows of one version keep their order.
insert_by_version : GenomeRecord → List GenomeRecord → List GenomeRecord
insert_by_version g [] = g ∷ []
insert_by_version g (x ∷ xs) =
    if leb g.version x.version then g ∷ x ∷ xs else x ∷ insert_by_version g xs

sort_by_version : List GenomeRecord → List GenomeRecord
sort_by_version [] = []
sort_by_version (g ∷ gs) = insert_by_version g (sort_by_version gs)

unfoldable pub list_genomes_for_system : Session → String → List GenomeRecord
unfolding sort_by_version insert_by_version
list_genomes_for_system s sys = sort_by_version (keep (λ g. g.system_id == sys) s.genomes)

-- A genome whose hash is stored already is left as it is.
unfoldable pub save_genome : Session → GenomeRecord → Session
save_genome s g = elim (get_genome_record s g.hash) [
  | some old ↦ s
  | none ↦ record s { genomes = s.genomes ++ g ∷ [] }
]

-- `_advance_status`: PROMOTED is terminal here, and `only_from` restricts the rest.
unfoldable pub advance :
    (PromotionStatus → Bool) → PromotionStatus → PromotionStatus → PromotionStatus
advance only_from new_status old =
    if is_promoted old then old else if not (only_from old) then old else new_status

unfoldable pub advance_status :
    Session → String → PromotionStatus → (PromotionStatus → Bool) → Session
unfolding advance
advance_status s h new_status only_from = elim (get_genome_record s h) [
  | none ↦ s
  | some g ↦ set_genome_status s h (advance only_from new_status g.status)
]

-- `only_from` of `save_promotion_decision`: every status but PROMOTED and SUPERSEDED, and for an
-- approval not CANARY either.
abbrev pub review_from : Bool → PromotionStatus → Bool
review_from is_approved st = not (in_production st) && not (is_approved && is_canary st)

unfoldable pub save_promotion_decision : Session → PromotionRecord → Session
unfolding advance_status
save_promotion_decision s d =
    advance_status (record s { decisions = s.decisions ++ d ∷ [] }) d.genome_hash d.next_status
      (review_from d.approved)

-- `only_from` of `save_canary_result`.
abbrev pub canary_from : PromotionStatus → Bool
canary_from PromotionStatus.approved = true
canary_from PromotionStatus.canary = true
canary_from PromotionStatus.rolled_back = true
canary_from _ = false

unfoldable pub save_canary_result : Session → CanaryRecord → Session
unfolding advance_status
save_canary_result s c =
    advance_status (record s { canaries = s.canaries ++ c ∷ [] }) c.candidate_hash
      (if c.rollback_triggered then rolled_back else canary) canary_from

unfoldable pub save_promotion_approval : Session → ApprovalRecord → Session
save_promotion_approval s a = record s { approvals = s.approvals ++ a ∷ [] }

-- `ORDER BY created_at DESC, id DESC LIMIT 1`: the last one that was inserted.
module _ {ℓ} {A : Type ℓ} where
  unfoldable pub latest : (A → Bool) → List A → Option A
  latest p [] = none
  latest p (x ∷ xs) =
      let later = latest p xs in
      elim later [ some y ↦ some y | none ↦ if p x then some x else none ]

abbrev pub latest_promotion_decision : Session → String → Option PromotionRecord
latest_promotion_decision s h = latest (λ d. d.genome_hash == h) s.decisions

abbrev pub latest_canary_run : Session → String → Option CanaryRecord
latest_canary_run s h = latest (λ c. c.candidate_hash == h) s.canaries

abbrev pub get_experiment : Session → String → Option ExperimentRecord
get_experiment s e = find (λ r. r.experiment_id == e) s.experiments

-- The join of the approvals with the genome that each acted on, for one application.
unfoldable pub join_row :
    Option GenomeRecord
    → ApprovalRecord
    → String
    → List (ApprovalRecord × GenomeRecord)
    → List (ApprovalRecord × GenomeRecord)
join_row none a sys rows = rows
join_row (some g) a sys rows = if g.system_id == sys then (a, g) ∷ rows else rows

unfoldable pub join_events :
    List GenomeRecord → String → List ApprovalRecord → List (ApprovalRecord × GenomeRecord)
unfolding join_row find_genome
join_events gs sys [] = []
join_events gs sys (a ∷ log) =
    join_row (find_genome a.genome_hash gs) a sys (join_events gs sys log)

unfoldable pub list_production_events : Session → String → List (ApprovalRecord × GenomeRecord)
unfolding join_events
list_production_events s sys = join_events s.genomes sys s.approvals
