-- ===== src/Lifecycle/Stored.antt =====
-- A new genome changes no history: the log names stored genomes only.
use neuro_forge.Base.{
  String, ◌≡◌, refl, sym, subst, ◌∙◌, ap, true, false, none, some, List, [], ◌∷◌, ◌++◌, All, arith,
  ◌==◌, if◌then◌else◌, Option-cases, inl, inr, is_some,
}
use neuro_forge.Genomes.{in_production}
use neuro_forge.Db.{
  GenomeRecord, ApprovalRecord, Session, get_genome_record, find_genome, save_genome,
  list_production_events, join_events,
}
use neuro_forge.Lifecycle.Log.{production_stack}
use neuro_forge.Lifecycle.Replay.{stack_hashes}
use neuro_forge.Lifecycle.Reconcile.{wanted, wanted_absent}
use neuro_forge.Lifecycle.Named.{stack-named, named_absent}
use neuro_forge.Lifecycle.Agreement.{Agrees, StatusAgrees, All-transport}

find_genome-append :
    (k : String) (gs : List GenomeRecord) (g : GenomeRecord)
    → find_genome k (gs ++ g ∷ [])
      ≡ elim (find_genome k gs) [ none ↦ if g.hash == k then some g else none | some r ↦ some r ]
unfolding find_genome
find_genome-append k [] g = refl
find_genome-append k (x ∷ gs) g = ground (arith, find_genome-append k gs g)

find_genome-append_found :
    (k : String) (gs : List GenomeRecord) (g : GenomeRecord)
    → is_some (find_genome k gs) ≡ true
    → find_genome k (gs ++ g ∷ []) ≡ find_genome k gs
find_genome-append_found k gs g e = ground (arith, find_genome-append k gs g)

join_events-append :
    (gs : List GenomeRecord) (g : GenomeRecord) (sys : String) (log : List ApprovalRecord)
    → All (λ a. is_some (find_genome a.genome_hash gs) ≡ true) log
    → join_events (gs ++ g ∷ []) sys log ≡ join_events gs sys log
unfolding join_events
join_events-append gs g sys [] all = refl
join_events-append gs g sys (a ∷ log) all =
    rw (find_genome-append_found a.genome_hash gs g all.0, join_events-append gs g sys log all.1)

module _ (s : Session) (g : GenomeRecord) (fresh : get_genome_record s g.hash ≡ none)
    (outside : in_production g.status ≡ false) (v : StatusAgrees s) where
  stack-added :
      (sys : String)
      → stack_hashes (record s { genomes = s.genomes ++ g ∷ [] }) sys ≡ stack_hashes s sys
  unfolding production_stack list_production_events
  stack-added sys = rw (join_events-append s.genomes g sys s.approvals v.logged)

  row_added :
      (k : String) (r : GenomeRecord)
      → find_genome k (s.genomes ++ g ∷ []) ≡ some r
      → Agrees (wanted (stack_hashes s r.system_id) k) r.status
  row_added k r e = elim (Option-cases (get_genome_record s k)) [
    | inl missing ↦
        let is_new : g ≡ r = ground (arith, find_genome-append k s.genomes g) in
        subst (λ w. Agrees w r.status)
          (sym (
            wanted_absent (stack_hashes s r.system_id) k
              (stack-named s r.system_id k (named_absent s r.system_id k missing))))
          (subst (λ x. in_production x.status ≡ false) is_new outside)
    | inr (old, found) ↦ v.agrees k r (ground (arith, find_genome-append k s.genomes g))
  ]

  added-StatusAgrees : StatusAgrees (record s { genomes = s.genomes ++ g ∷ [] })
  added-StatusAgrees = record {
    agrees = λ k r e.
        subst (λ hs. Agrees (wanted hs k) r.status) (sym (stack-added r.system_id))
          (row_added k r e);
    logged =
        All-transport s (record s { genomes = s.genomes ++ g ∷ [] })
          (λ k h. ap is_some (find_genome-append_found k s.genomes g h) ∙ h) s.approvals v.logged;
  }

pub save_genome-StatusAgrees :
    (s : Session) (g : GenomeRecord)
    → in_production g.status ≡ false
    → StatusAgrees s
    → StatusAgrees (save_genome s g)
unfolding save_genome
save_genome-StatusAgrees s g outside v = elim (Option-cases (get_genome_record s g.hash)) [
  | inl fresh ↦ rw (fresh, save_genome) (added-StatusAgrees s g fresh outside v)
  | inr (old, stored) ↦ rw (stored, save_genome) v
]
