-- ===== src/Lifecycle/Named.antt =====
-- The genomes that the log of an application names: its stack is among them, and they are stored rows
-- of the application.
use neuro_forge.Base.{
  String, ◌≡◌, refl, sym, subst, ◌∙◌, ap, Bool, true, false, none, some, List, [], ◌∷◌, ◌++◌, map,
  keep, All, elem, elem-append, differs, arith, eq_iff, ◌==◌, if◌then◌else◌, elem-keep-false,
  Bool-cases, inl, inr,
}
use neuro_forge.Db.{
  GenomeRecord, ApprovalRecord, Session, get_genome_record, list_production_events,
  save_promotion_approval,
}
use neuro_forge.Lifecycle.Log.{is_promote}
use neuro_forge.Lifecycle.Replay.{
  stack_hashes, stack_hashes-eq-replay, history, history-approval, Key, key, push_key, replay_keys,
}
use neuro_forge.Lifecycle.Stack.{IsStored, join_events-IsStored}
use neuro_forge.Lifecycle.Reconcile.{named, event_hashes}

abbrev hash_in : Key → String
hash_in (p, h) = h

event_hashes-eq-keys :
    (es : List (ApprovalRecord × GenomeRecord)) → event_hashes es ≡ map hash_in (map key es)
event_hashes-eq-keys [] = refl
event_hashes-eq-keys ((a, g) ∷ es) = ap (λ l. g.hash ∷ l) (event_hashes-eq-keys es)

pub named-eq-history : (s : Session) (sys : String) → named s sys ≡ map hash_in (history s sys)
named-eq-history s sys = event_hashes-eq-keys (list_production_events s sys)

elem-push_key :
    (k : String) (st : List String) (p : Bool) (h : String)
    → elem k st ≡ false
    → (k == h) ≡ false
    → elem k (push_key st p h) ≡ false
unfolding push_key
elem-push_key k st true h e ne =
    elem-append k (keep (differs h) st) (h ∷ []) ∙ ground (arith, elem-keep-false h k st e)
elem-push_key k st false h e ne = elem-keep-false h k st e

elem-replay_keys :
    (k : String) (st : List String) (es : List Key)
    → elem k st ≡ false
    → elem k (map hash_in es) ≡ false
    → elem k (replay_keys st es) ≡ false
unfolding replay_keys
elem-replay_keys k st [] e n = e
elem-replay_keys k st ((p, h) ∷ es) e n =
    elem-replay_keys k (push_key st p h) es (elem-push_key k st p h e (ground arith)) (ground arith)

-- What the log does not name is not in production.
pub stack-named :
    (s : Session) (sys k : String)
    → elem k (named s sys) ≡ false
    → elem k (stack_hashes s sys) ≡ false
stack-named s sys k e =
    ap (elem k) (stack_hashes-eq-replay s sys)
    ∙ elem-replay_keys k [] (history s sys) refl (ap (elem k) (sym (named-eq-history s sys)) ∙ e)

named_stored :
    (s : Session) (sys k : String) (es : List (ApprovalRecord × GenomeRecord))
    → All (λ e. IsStored s sys e.1) es
    → elem k (event_hashes es) ≡ true
    → (g : GenomeRecord) × (get_genome_record s k ≡ some g) × ((g.system_id == sys) ≡ true)
named_stored s sys k [] all e = absurd (ground arith)
named_stored s sys k ((a, g) ∷ es) all e = elim (Bool-cases (k == g.hash)) [
  | inl same ↦ (
    g,
    subst (λ h. get_genome_record s h ≡ some g) (sym ((eq_iff k g.hash).0 same)) all.0.0,
    all.0.1,
  )
  | inr other ↦ named_stored s sys k es all.1 (ground arith)
]

-- What the log of an application names is a stored genome of the application.
pub named-IsStored :
    (s : Session) (sys k : String) {g : GenomeRecord}
    → get_genome_record s k ≡ some g
    → elem k (named s sys) ≡ true
    → (g.system_id == sys) ≡ true
unfolding list_production_events
named-IsStored s sys k {g} found e =
    let (g', found', same) =
      named_stored s sys k (list_production_events s sys) (join_events-IsStored s sys s.approvals)
        e in
    ground arith

-- A new row of the log.
pub named-approval :
    (s : Session) (a : ApprovalRecord) (sys k : String) {g : GenomeRecord}
    → get_genome_record s a.genome_hash ≡ some g
    → elem k (named (save_promotion_approval s a) sys) ≡ false
    → elem k (named s sys) ≡ false
named-approval s a sys k {g} found e =
    ap (elem k) (named-eq-history s sys)
    ∙ later_absent k (history s sys)
        (if g.system_id == sys then (is_promote a.action, g.hash) ∷ [] else [])
        (ap (λ l. elem k (map hash_in l)) (sym (history-approval s sys a found))
          ∙ ap (elem k) (sym (named-eq-history (save_promotion_approval s a) sys))
          ∙ e)
  where
    later_absent :
        (k : String) (xs ys : List Key)
        → elem k (map hash_in (xs ++ ys)) ≡ false
        → elem k (map hash_in xs) ≡ false
    later_absent k [] ys e = refl
    later_absent k ((p, h) ∷ xs) ys e = ground (arith, later_absent k xs ys)

-- A genome that is not stored is not in production.
pub named_absent :
    (s : Session) (sys k : String) → get_genome_record s k ≡ none → elem k (named s sys) ≡ false
unfolding list_production_events
named_absent s sys k missing = elim (Bool-cases (elem k (named s sys))) [
  | inl inside ↦
      let (g, found, _) =
        named_stored s sys k (list_production_events s sys) (join_events-IsStored s sys s.approvals)
          inside in
      absurd (ground arith)
  | inr outside ↦ outside
]
