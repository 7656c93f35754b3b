-- ===== src/Lifecycle/Replay.antt =====
-- The replay of the approval log over hashes alone. Statuses do not enter it, so no write to the
-- status column changes what is in production.
use neuro_forge.Base.{
  String, ◌≡◌, refl, ◌∙◌, ap, Bool, not, Option, none, some, List, [], ◌∷◌, ◌++◌, map, keep,
  differs, arith, ◌==◌, if◌then◌else◌, inl, inr, Bool-cases,
}
use mathlib.Core.Option
use neuro_forge.Genomes.{PromotionStatus, promoted, superseded, rolled_back}
use neuro_forge.Db.{
  GenomeRecord, ApprovalRecord, Session, find_genome, write_status, set_genome_status, join_events,
  join_row, list_production_events, save_promotion_approval, get_genome_record,
}
use neuro_forge.Db.Laws.{find-write_status, with_status}
use neuro_forge.Lifecycle.Log.{
  is_promote, push_event, replay, production_stack, sync_status, mark_stack, demote_one, demote,
  reconcile_production_statuses,
}

-- What an event says: whether it promotes, and which genome.
abbrev pub Key : Type 0
Key = Bool × String

abbrev pub key : ApprovalRecord × GenomeRecord → Key
key (a, g) = (is_promote a.action, g.hash)

abbrev pub hash_of : GenomeRecord → String
hash_of g = g.hash

unfoldable pub push_key : List String → Bool → String → List String
push_key st p h = let kept = keep (differs h) st in if p then kept ++ h ∷ [] else kept

unfoldable pub replay_keys : List String → List Key → List String
unfolding push_key
replay_keys st [] = st
replay_keys st ((p, h) ∷ es) = replay_keys (push_key st p h) es

abbrev pub stack_hashes : Session → String → List String
stack_hashes s sys = map hash_of (production_stack s sys)

abbrev pub history : Session → String → List Key
history s sys = map key (list_production_events s sys)

map-keep :
    (h : String) (st : List GenomeRecord)
    → map hash_of (keep (λ g. not (g.hash == h)) st) ≡ keep (differs h) (map hash_of st)
map-keep h [] = refl
map-keep h (g ∷ st) = ground (arith, map-keep h st)

map_snoc :
    (st : List GenomeRecord) (g : GenomeRecord)
    → map hash_of (st ++ g ∷ []) ≡ map hash_of st ++ g.hash ∷ []
map_snoc [] g = refl
map_snoc (x ∷ st) g = ap (λ l. x.hash ∷ l) (map_snoc st g)

map-push_event :
    (st : List GenomeRecord) (a : ApprovalRecord) (g : GenomeRecord)
    → map hash_of (push_event st a g) ≡ push_key (map hash_of st) (is_promote a.action) g.hash
unfolding push_event push_key
map-push_event st a g = elim (Bool-cases (is_promote a.action)) [
  | inl e ↦ rw e (
      map_snoc (keep (λ x. not (x.hash == g.hash)) st) g
      ∙ ap (λ l. l ++ g.hash ∷ []) (map-keep g.hash st))
  | inr e ↦ rw e (map-keep g.hash st)
]

map-replay :
    (st : List GenomeRecord) (es : List (ApprovalRecord × GenomeRecord))
    → map hash_of (replay st es) ≡ replay_keys (map hash_of st) (map key es)
unfolding replay replay_keys
map-replay st [] = refl
map-replay st ((a, g) ∷ es) =
    map-replay (push_event st a g) es ∙ ap (λ l. replay_keys l (map key es)) (map-push_event st a g)

-- The stack is the replay of the history of its application.
pub stack_hashes-eq-replay :
    (s : Session) (sys : String) → stack_hashes s sys ≡ replay_keys [] (history s sys)
unfolding production_stack
stack_hashes-eq-replay s sys = map-replay [] (list_production_events s sys)

-- A status write leaves the history alone.
map-join_row :
    (o : Option GenomeRecord) (st : PromotionStatus) (a : ApprovalRecord) (sys : String)
    (r r' : List (ApprovalRecord × GenomeRecord))
    → map key r ≡ map key r'
    → map key (join_row (Option.map (with_status st) o) a sys r) ≡ map key (join_row o a sys r')
unfolding join_row
map-join_row none st a sys r r' e = e
map-join_row (some g) st a sys r r' e = ground arith

map-join_row_same :
    (o : Option GenomeRecord) (a : ApprovalRecord) (sys : String)
    (r r' : List (ApprovalRecord × GenomeRecord))
    → map key r ≡ map key r'
    → map key (join_row o a sys r) ≡ map key (join_row o a sys r')
unfolding join_row
map-join_row_same none a sys r r' e = e
map-join_row_same (some g) a sys r r' e = ground arith

map-join_events :
    (h sys : String) (st : PromotionStatus) (gs : List GenomeRecord) (log : List ApprovalRecord)
    → map key (join_events (write_status h st gs) sys log) ≡ map key (join_events gs sys log)
unfolding join_events
map-join_events h sys st gs [] = refl
map-join_events h sys st gs (a ∷ log) =
    let ih = map-join_events h sys st gs log in
    elim (Bool-cases (h == a.genome_hash)) [
      | inl e ↦
          rw (find-write_status, e) (map-join_row (find_genome a.genome_hash gs) st a sys _ _ ih)
      | inr e ↦
          rw (find-write_status, e) (map-join_row_same (find_genome a.genome_hash gs) a sys _ _ ih)
    ]

pub history-set_status :
    (s : Session) (h sys : String) (st : PromotionStatus)
    → history (set_genome_status s h st) sys ≡ history s sys
unfolding list_production_events set_genome_status
history-set_status s h sys st = map-join_events h sys st s.genomes s.approvals

pub history-sync_status :
    (s : Session) (h sys : String) (st : PromotionStatus)
    → history (sync_status s h st) sys ≡ history s sys
unfolding sync_status
history-sync_status s h sys st = ground (arith, history-set_status s h sys st)

pub history-mark_stack :
    (s : Session) (sys : String) (stack : List GenomeRecord)
    → history (mark_stack s stack) sys ≡ history s sys
unfolding mark_stack
history-mark_stack s sys [] = refl
history-mark_stack s sys (g ∷ []) = history-sync_status s g.hash sys promoted
history-mark_stack s sys (g ∷ g' ∷ stack) =
    history-mark_stack (sync_status s g.hash superseded) sys (g' ∷ stack)
    ∙ history-sync_status s g.hash sys superseded

history-demote_one :
    (s : Session) (sys h : String) (stack : List String)
    → history (demote_one s stack h) sys ≡ history s sys
unfolding demote_one
history-demote_one s sys h stack = ground (arith, history-set_status s h sys rolled_back)

pub history-demote :
    (s : Session) (sys : String) (stack : List String) (es : List (ApprovalRecord × GenomeRecord))
    → history (demote s stack es) sys ≡ history s sys
unfolding demote
history-demote s sys stack [] = refl
history-demote s sys stack ((a, g) ∷ es) =
    history-demote (demote_one s stack g.hash) sys stack es ∙ history-demote_one s sys g.hash stack

-- Reconciling one application changes no history, of any application.
pub history-reconcile :
    (s : Session) (sys other : String)
    → history (reconcile_production_statuses s sys) other ≡ history s other
unfolding reconcile_production_statuses
history-reconcile s sys other =
    history-demote (mark_stack s (production_stack s sys)) other
      (map (λ g. g.hash) (production_stack s sys)) (list_production_events s sys)
    ∙ history-mark_stack s other (production_stack s sys)

-- A new row of the log is the last event of its genome's application, and of no other.
map-join_row-append :
    (o : Option GenomeRecord) (a : ApprovalRecord) (sys : String)
    (r r' : List (ApprovalRecord × GenomeRecord)) (last : List Key)
    → map key r ≡ map key r' ++ last
    → map key (join_row o a sys r) ≡ map key (join_row o a sys r') ++ last
unfolding join_row
map-join_row-append none a sys r r' last e = e
map-join_row-append (some g) a sys r r' last e = ground arith

map-join_events-append :
    (sys : String) (gs : List GenomeRecord) (log : List ApprovalRecord) (a : ApprovalRecord)
    → map key (join_events gs sys (log ++ a ∷ []))
      ≡ map key (join_events gs sys log)
        ++ map key (join_row (find_genome a.genome_hash gs) a sys [])
unfolding join_events
map-join_events-append sys gs [] a = refl
map-join_events-append sys gs (b ∷ log) a =
    map-join_row-append (find_genome b.genome_hash gs) b sys (join_events gs sys (log ++ a ∷ []))
      (join_events gs sys log) (map key (join_row (find_genome a.genome_hash gs) a sys []))
      (map-join_events-append sys gs log a)

pub history-approval :
    (s : Session) (sys : String) (a : ApprovalRecord) {g : GenomeRecord}
    → get_genome_record s a.genome_hash ≡ some g
    → history (save_promotion_approval s a) sys
      ≡ history s sys ++ (if g.system_id == sys then (is_promote a.action, g.hash) ∷ [] else [])
unfolding list_production_events save_promotion_approval join_row
history-approval s sys a e =
    map-join_events-append sys s.genomes s.approvals a ∙ rw e (ground arith)

pub replay_keys-append :
    (st : List String) (es : List Key) (p : Bool) (h : String)
    → replay_keys st (es ++ (p, h) ∷ []) ≡ push_key (replay_keys st es) p h
unfolding replay_keys
replay_keys-append st [] p h = refl
replay_keys-append st ((q, k) ∷ es) p h = replay_keys-append (push_key st q k) es p h
