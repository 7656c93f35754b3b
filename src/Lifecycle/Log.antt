-- ===== src/Lifecycle/Log.antt =====
-- The stack of genomes in production, replayed from the approval log, and the status column that
-- follows it (src/neuroforge/promotion/lifecycle.py).
use neuro_forge.Base.{
  String, Bool, true, not, ◌&&◌, ◌||◌, Option, none, some, List, [], ◌∷◌, ◌++◌, map, keep, find,
  elem, get_last?, ◌==◌, nat_eq, if◌then◌else◌,
}
use mathlib.Core.Logic.{ite}
use neuro_forge.Genomes.{
  PromotionStatus, PromotionStatus-discrete, promoted, superseded, rolled_back, in_production,
}
use neuro_forge.Db.{
  GenomeRecord, ApprovalRecord, Session, get_genome_record, set_genome_status,
  list_genomes_for_system, list_production_events,
}

-- `(approval.action or "promote") == "promote"`
unfoldable pub is_promote : Option String → Bool
is_promote none = true
is_promote (some t) = t == "" || t == "promote"

-- One event of the log: the genome leaves the stack, and a promotion pushes it again.
unfoldable pub push_event : List GenomeRecord → ApprovalRecord → GenomeRecord → List GenomeRecord
push_event stack approval genome =
    let kept = keep (λ g. not (g.hash == genome.hash)) stack in
    if is_promote approval.action then kept ++ genome ∷ [] else kept

unfoldable pub replay : List GenomeRecord → List (ApprovalRecord × GenomeRecord) → List GenomeRecord
replay stack [] = stack
replay stack ((a, g) ∷ events) = replay (push_event stack a g) events

unfoldable pub production_stack : Session → String → List GenomeRecord
production_stack s sys = replay [] (list_production_events s sys)

unfoldable pub current_champion : Session → String → Option GenomeRecord
current_champion s sys = get_last? (production_stack s sys)

unfoldable pub original_baseline : Session → String → Option GenomeRecord
original_baseline s sys = find (λ g. nat_eq g.version 1) (list_genomes_for_system s sys)

-- `if genome.status != wanted.value: set_genome_status(...)`; the status is the row's current one.
unfoldable pub sync_status : Session → String → PromotionStatus → Session
sync_status s h wanted = elim (get_genome_record s h) [
  | none ↦ s
  | some g ↦ ite (PromotionStatus-discrete g.status wanted) s (set_genome_status s h wanted)
]

-- The first loop of `reconcile_production_statuses`: the last of the stack is PROMOTED.
unfoldable pub mark_stack : Session → List GenomeRecord → Session
mark_stack s [] = s
mark_stack s (g ∷ []) = sync_status s g.hash promoted
mark_stack s (g ∷ g' ∷ stack) = mark_stack (sync_status s g.hash superseded) (g' ∷ stack)

unfoldable pub demote_one : Session → List String → String → Session
demote_one s in_stack h = elim (get_genome_record s h) [
  | none ↦ s
  | some g ↦
      if not (elem h in_stack) && in_production g.status
      then set_genome_status s h rolled_back
      else s
]

-- The second loop: what the log names and the stack does not hold is out of production.
unfoldable pub demote : Session → List String → List (ApprovalRecord × GenomeRecord) → Session
demote s in_stack [] = s
demote s in_stack ((_, g) ∷ events) = demote (demote_one s in_stack g.hash) in_stack events

unfoldable pub reconcile_production_statuses : Session → String → Session
reconcile_production_statuses s sys =
    let events = list_production_events s sys in
    let stack = production_stack s sys in
    demote (mark_stack s stack) (map (λ g. g.hash) stack) events
