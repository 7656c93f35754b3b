-- ===== src/Lifecycle/Stack.antt =====
-- The stack of genomes in production: no genome twice, and each a stored genome of the application.
use neuro_forge.Base.{
  String, ◌≡◌, refl, sym, subst, Bool, true, false, not, Option, none, some, List, [], ◌∷◌, ◌++◌,
  keep, All, All-append, All-if, keep-All, differs, ◌==◌, inl, inr, Bool-cases, Distinct,
  elem-keep_self, keep-Distinct, append-Distinct,
}
use neuro_forge.Db.{
  GenomeRecord, ApprovalRecord, Session, get_genome_record, join_events, join_row,
  list_production_events,
}
use neuro_forge.Db.Laws.{find_genome-hash}
use neuro_forge.Lifecycle.Log.{production_stack, is_promote, push_event, replay}
use neuro_forge.Lifecycle.Replay.{
  stack_hashes, history, stack_hashes-eq-replay, replay_keys, push_key, Key,
}

push_key-Distinct :
    (st : List String) (p : Bool) (h : String) → Distinct st → Distinct (push_key st p h)
unfolding push_key
push_key-Distinct st true h d =
    append-Distinct h (keep (differs h) st) (elem-keep_self h st) (keep-Distinct h st d)
push_key-Distinct st false h d = keep-Distinct h st d

replay_keys-Distinct :
    (st : List String) (es : List Key) → Distinct st → Distinct (replay_keys st es)
unfolding replay_keys
replay_keys-Distinct st [] d = d
replay_keys-Distinct st ((p, h) ∷ es) d =
    replay_keys-Distinct (push_key st p h) es (push_key-Distinct st p h d)

-- No genome stands twice in the stack, whatever the log holds.
pub stack-Distinct : (s : Session) (sys : String) → Distinct (stack_hashes s sys)
stack-Distinct s sys = rw stack_hashes-eq-replay (replay_keys-Distinct [] (history s sys) tt)

-- A stored genome of the application.
abbrev pub IsStored : Session → String → GenomeRecord → Type 0
IsStored s sys g = (get_genome_record s g.hash ≡ some g) × ((g.system_id == sys) ≡ true)

module _ (P : GenomeRecord → Type 0) where
  push_event-All :
      (st : List GenomeRecord) (a : ApprovalRecord) (g : GenomeRecord)
      → All P st
      → P g
      → All P (push_event st a g)
  unfolding push_event
  push_event-All st a g all p =
      let kept = keep (λ x. not (x.hash == g.hash)) st in
      let all_kept = keep-All P (λ x. not (x.hash == g.hash)) st all in
      All-if P (is_promote a.action) (kept ++ g ∷ []) kept
        (All-append P kept (g ∷ []) all_kept (p, tt)) all_kept

  replay-All :
      (st : List GenomeRecord) (es : List (ApprovalRecord × GenomeRecord))
      → All P st
      → All (λ e. P e.1) es
      → All P (replay st es)
  unfolding replay
  replay-All st [] all e = all
  replay-All st ((a, g) ∷ es) all e =
      replay-All (push_event st a g) es (push_event-All st a g all e.0) e.1

pub stored_by_hash :
    (s : Session) (h : String) {g : GenomeRecord}
    → get_genome_record s h ≡ some g
    → get_genome_record s g.hash ≡ some g
stored_by_hash s h {g} e =
    subst (λ k. get_genome_record s k ≡ some g) (sym (find_genome-hash h s.genomes e)) e

join_row-IsStored :
    (s : Session) (sys : String) (o : Option GenomeRecord) (a : ApprovalRecord)
    (r : List (ApprovalRecord × GenomeRecord))
    → get_genome_record s a.genome_hash ≡ o
    → All (λ e. IsStored s sys e.1) r
    → All (λ e. IsStored s sys e.1) (join_row o a sys r)
unfolding join_row
join_row-IsStored s sys none a r e all = all
join_row-IsStored s sys (some g) a r e all = elim (Bool-cases (g.system_id == sys)) [
  | inl same ↦ rw same ((stored_by_hash s a.genome_hash e, same), all)
  | inr other ↦ rw other all
]

pub join_events-IsStored :
    (s : Session) (sys : String) (log : List ApprovalRecord)
    → All (λ e. IsStored s sys e.1) (join_events s.genomes sys log)
unfolding join_events
join_events-IsStored s sys [] = tt
join_events-IsStored s sys (a ∷ log) =
    join_row-IsStored s sys (get_genome_record s a.genome_hash) a (join_events s.genomes sys log)
      refl (join_events-IsStored s sys log)

-- What is in production is stored, and belongs to the application.
pub production_stack-IsStored :
    (s : Session) (sys : String) → All (IsStored s sys) (production_stack s sys)
unfolding production_stack list_production_events
production_stack-IsStored s sys =
    replay-All (IsStored s sys) [] (join_events s.genomes sys s.approvals) tt
      (join_events-IsStored s sys s.approvals)
