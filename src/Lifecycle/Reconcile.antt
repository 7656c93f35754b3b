-- ===== src/Lifecycle/Reconcile.antt =====
-- What `reconcile_production_statuses` writes, row by row.
use neuro_forge.Base.{
  String, ◌≡◌, refl, ◌∙◌, ap, Bool, true, false, not, ◌||◌, ◌&&◌, Option, none, some, List, [], ◌∷◌,
  map, elem, arith, eq_iff, ◌==◌, if◌then◌else◌, Option-cases, inl, inr, Bool-cases, Distinct,
}
use mathlib.Core.Option
use neuro_forge.Genomes.{PromotionStatus, promoted, superseded, rolled_back, in_production}
use neuro_forge.Db.{
  GenomeRecord, ApprovalRecord, Session, get_genome_record, set_genome_status,
  list_production_events,
}
use neuro_forge.Db.Laws.{with_status, find-write_status}
use neuro_forge.Lifecycle.Log.{
  production_stack, sync_status, mark_stack, demote_one, demote, reconcile_production_statuses,
}
use neuro_forge.Lifecycle.Replay.{stack_hashes, hash_of}
use neuro_forge.Lifecycle.Stack.{stack-Distinct}

-- The status that a place in the stack asks for: the last is PROMOTED, the others SUPERSEDED.
unfoldable pub wanted : List String → String → Option PromotionStatus
wanted [] k = none
wanted (h ∷ []) k = if h == k then some promoted else none
wanted (h ∷ h' ∷ hs) k = if h == k then some superseded else wanted (h' ∷ hs) k

abbrev pub give : Option PromotionStatus → Option GenomeRecord → Option GenomeRecord
give none row = row
give (some w) row = Option.map (with_status w) row

abbrev pub demoted : GenomeRecord → GenomeRecord
demoted g = if in_production g.status then with_status rolled_back g else g

pub wanted_absent : (hs : List String) (k : String) → elem k hs ≡ false → wanted hs k ≡ none
unfolding wanted
wanted_absent [] k e = refl
wanted_absent (h ∷ []) k e = ground (arith, eq_iff h k, eq_iff k h)
wanted_absent (h ∷ h' ∷ hs) k e = ground (arith, eq_iff h k, eq_iff k h, wanted_absent (h' ∷ hs) k)

pub wanted_present :
    (hs : List String) (k : String)
    → elem k hs ≡ true
    → (w : PromotionStatus) × (wanted hs k ≡ some w)
unfolding wanted
wanted_present [] k e = absurd (ground arith)
wanted_present (h ∷ []) k e = (promoted, ground (arith, eq_iff h k, eq_iff k h))
wanted_present (h ∷ h' ∷ hs) k e = elim (Bool-cases (h == k)) [
  | inl same ↦ (superseded, rw same refl)
  | inr other ↦
      let (w, there) = wanted_present (h' ∷ hs) k (ground (arith, eq_iff h k, eq_iff k h)) in
      (w, rw other there)
]

pub get-set_status :
    (s : Session) (h k : String) (w : PromotionStatus)
    → get_genome_record (set_genome_status s h w) k ≡ (
        if h == k
        then Option.map (with_status w) (get_genome_record s k)
        else get_genome_record s k)
unfolding set_genome_status
get-set_status s h k w = find-write_status h k w s.genomes

get-sync_status :
    (s : Session) (h k : String) (w : PromotionStatus)
    → get_genome_record (sync_status s h w) k
      ≡ give (if h == k then some w else none) (get_genome_record s k)
unfolding sync_status
get-sync_status s h k w = elim (Option-cases (get_genome_record s h)) [
  | inl missing ↦ ground (arith, eq_iff h k)
  | inr (g, found) ↦ ground (arith, eq_iff h k, get-set_status s h k w)
]

give_twice :
    (o : Option GenomeRecord) (a b : Option PromotionStatus)
    → a ≡ none
    → give a (give b o) ≡ give b o
give_twice o a b e = rw e

get-mark_stack :
    (s : Session) (st : List GenomeRecord) (k : String)
    → Distinct (map hash_of st)
    → get_genome_record (mark_stack s st) k
      ≡ give (wanted (map hash_of st) k) (get_genome_record s k)
unfolding mark_stack wanted
get-mark_stack s [] k d = refl
get-mark_stack s (g ∷ []) k d = get-sync_status s g.hash k promoted
get-mark_stack s (g ∷ g' ∷ st) k d =
    get-mark_stack (sync_status s g.hash superseded) (g' ∷ st) k d.1
    ∙ ap (give (wanted (map hash_of (g' ∷ st)) k)) (get-sync_status s g.hash k superseded)
    ∙ (elim (Bool-cases (g.hash == k)) [
      | inl same ↦
          rw (same, wanted_absent (map hash_of (g' ∷ st)) k (ground (arith, eq_iff g.hash k)))
      | inr other ↦ rw other
    ])

demoted_twice : (g : GenomeRecord) → demoted (demoted g) ≡ demoted g
demoted_twice g = ground arith

-- What the second loop does to one row, when the log names it and the stack does not hold it.
abbrev pub demote_row : Bool → Option GenomeRecord → Option GenomeRecord
demote_row true o = Option.map demoted o
demote_row false o = o

get-demote_one :
    (s : Session) (stack : List String) (h k : String)
    → get_genome_record (demote_one s stack h) k
      ≡ demote_row (not (elem k stack) && h == k) (get_genome_record s k)
unfolding demote_one
get-demote_one s stack h k = elim (Option-cases (get_genome_record s h)) [
  | inl missing ↦ ground (arith, eq_iff h k)
  | inr (g, found) ↦ ground (arith, eq_iff h k, get-set_status s h k rolled_back)
]

demote_row_twice :
    (a b : Bool) (o : Option GenomeRecord) → demote_row a (demote_row b o) ≡ demote_row (b || a) o
demote_row_twice a true none = ground arith
demote_row_twice a true (some g) = ground (arith, demoted_twice g)
demote_row_twice a false o = refl

abbrev pub event_hashes : List (ApprovalRecord × GenomeRecord) → List String
event_hashes es = map (λ e. e.1.hash) es

get-demote :
    (s : Session) (stack : List String) (es : List (ApprovalRecord × GenomeRecord)) (k : String)
    → get_genome_record (demote s stack es) k
      ≡ demote_row (not (elem k stack) && elem k (event_hashes es)) (get_genome_record s k)
unfolding demote
get-demote s stack [] k = ground arith
get-demote s stack ((a, g) ∷ es) k =
    get-demote (demote_one s stack g.hash) stack es k
    ∙ ap (demote_row (not (elem k stack) && elem k (event_hashes es)))
        (get-demote_one s stack g.hash k)
    ∙ demote_row_twice (not (elem k stack) && elem k (event_hashes es))
        (not (elem k stack) && g.hash == k) (get_genome_record s k)
    ∙ ap (λ b. demote_row b (get_genome_record s k))
        (ground (arith, eq_iff g.hash k, eq_iff k g.hash))

-- The hashes that the log of an application names.
abbrev pub named : Session → String → List String
named s sys = event_hashes (list_production_events s sys)

-- After reconciling an application, a row that its stack holds has the status of its place (PROMOTED
-- on top, SUPERSEDED below); a row that its log names and its stack does not hold is ROLLED_BACK if it
-- was PROMOTED or SUPERSEDED; every other row, and every other column, is as it was.
pub get-reconcile :
    (s : Session) (sys k : String)
    → get_genome_record (reconcile_production_statuses s sys) k
      ≡ demote_row
          (not (elem k (stack_hashes s sys)) && elem k (named s sys))
          (give (wanted (stack_hashes s sys) k) (get_genome_record s k))
unfolding reconcile_production_statuses
get-reconcile s sys k =
    get-demote (mark_stack s (production_stack s sys)) (stack_hashes s sys)
      (list_production_events s sys) k
    ∙ ap (demote_row (not (elem k (stack_hashes s sys)) && elem k (named s sys)))
        (get-mark_stack s (production_stack s sys) k (stack-Distinct s sys))

-- Reconciling leaves the log as it is.
approvals-sync_status :
    (s : Session) (h : String) (w : PromotionStatus) → (sync_status s h w).approvals ≡ s.approvals
unfolding sync_status set_genome_status
approvals-sync_status s h w = ground arith

approvals-mark_stack :
    (s : Session) (st : List GenomeRecord) → (mark_stack s st).approvals ≡ s.approvals
unfolding mark_stack
approvals-mark_stack s [] = refl
approvals-mark_stack s (g ∷ []) = approvals-sync_status s g.hash promoted
approvals-mark_stack s (g ∷ g' ∷ st) =
    approvals-mark_stack (sync_status s g.hash superseded) (g' ∷ st)
    ∙ approvals-sync_status s g.hash superseded

approvals-demote :
    (s : Session) (stack : List String) (es : List (ApprovalRecord × GenomeRecord))
    → (demote s stack es).approvals ≡ s.approvals
unfolding demote demote_one set_genome_status
approvals-demote s stack [] = refl
approvals-demote s stack ((a, g) ∷ es) =
    approvals-demote (demote_one s stack g.hash) stack es ∙ ground arith

pub approvals-reconcile :
    (s : Session) (sys : String) → (reconcile_production_statuses s sys).approvals ≡ s.approvals
unfolding reconcile_production_statuses
approvals-reconcile s sys =
    approvals-demote (mark_stack s (production_stack s sys)) (stack_hashes s sys)
      (list_production_events s sys)
    ∙ approvals-mark_stack s (production_stack s sys)
