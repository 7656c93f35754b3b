-- ===== src/Lifecycle/Champion.antt =====
-- What a promotion and a rollback do to the stack of genomes in production.
use neuro_forge.Base.{
  String, ◌≡◌, ◌≢◌, sym, ◌∙◌, ap, false, Option, some, [], ◌∷◌, ◌++◌, keep, differs, arith, eq_iff,
  ◌==◌, ==_refl, if◌then◌else◌, ok, append-nil,
}
use neuro_forge.Db.{
  GenomeRecord, ApprovalRecord, Session, get_genome_record, save_promotion_approval,
}
use neuro_forge.Db.Laws.{find_genome-hash}
use neuro_forge.Lifecycle.Log.{reconcile_production_statuses, is_promote}
use neuro_forge.Lifecycle.Change.{PromotionOutcome, promote_to_production, promotion_of}
use neuro_forge.Lifecycle.Replay.{
  stack_hashes, history, stack_hashes-eq-replay, history-reconcile, history-approval, replay_keys,
  replay_keys-append, push_key,
}
use neuro_forge.Lifecycle.Promotion.{promote-eq-ok}

-- Reconciling writes no log.
pub stack-reconcile :
    (s : Session) (sys other : String)
    → stack_hashes (reconcile_production_statuses s sys) other ≡ stack_hashes s other
stack-reconcile s sys other =
    stack_hashes-eq-replay (reconcile_production_statuses s sys) other
    ∙ ap (replay_keys []) (history-reconcile s sys other)
    ∙ sym (stack_hashes-eq-replay s other)

-- A new row of the log, as the stack of its own application and of the others sees it.
module _ (s : Session) (a : ApprovalRecord) {g : GenomeRecord}
    (found : get_genome_record s a.genome_hash ≡ some g) where
  pub stack-approval :
      stack_hashes
        (reconcile_production_statuses (save_promotion_approval s a) g.system_id)
        g.system_id
      ≡ push_key (stack_hashes s g.system_id) (is_promote a.action) g.hash
  stack-approval =
      let sys = g.system_id in
      let logged = save_promotion_approval s a in
      stack-reconcile logged sys sys
      ∙ stack_hashes-eq-replay logged sys
      ∙ ap (replay_keys []) (
          history-approval s sys a found
          ∙ ap (λ b. history s sys ++ (if b then (is_promote a.action, g.hash) ∷ [] else []))
              (==_refl sys))
      ∙ replay_keys-append [] (history s sys) (is_promote a.action) g.hash
      ∙ ap (λ l. push_key l (is_promote a.action) g.hash) (sym (stack_hashes-eq-replay s sys))

  pub stack_logged_other :
      (sys : String)
      → (g.system_id == sys) ≡ false
      → stack_hashes (save_promotion_approval s a) sys ≡ stack_hashes s sys
  stack_logged_other sys ne =
      stack_hashes-eq-replay (save_promotion_approval s a) sys
      ∙ ap (replay_keys []) (
          history-approval s sys a found
          ∙ ap (λ b. history s sys ++ (if b then (is_promote a.action, g.hash) ∷ [] else [])) ne
          ∙ append-nil (history s sys))
      ∙ sym (stack_hashes-eq-replay s sys)

  pub stack-approval_other :
      (sys : String)
      → (g.system_id == sys) ≡ false
      → stack_hashes (reconcile_production_statuses (save_promotion_approval s a) g.system_id) sys
        ≡ stack_hashes s sys
  stack-approval_other sys ne =
      stack-reconcile (save_promotion_approval s a) g.system_id sys ∙ stack_logged_other sys ne

-- After a promotion the genome is on top of its application's stack, above what was in production
-- before (itself apart), and is the champion; no other application's stack changes.
pub promote-stack :
    (s : Session) (h : String) (e : Option String) (by : String) {s' : Session}
    {out : PromotionOutcome}
    → promote_to_production s h e by ≡ ok (s', out)
    → (g : GenomeRecord) × (get_genome_record s h ≡ some g)
      × (stack_hashes s' g.system_id ≡ keep (differs h) (stack_hashes s g.system_id) ++ h ∷ [])
      × ((sys : String) → sys ≢ g.system_id → stack_hashes s' sys ≡ stack_hashes s sys)
unfolding push_key is_promote
promote-stack s h e by {s'} {out} eq =
    let p = promote-eq-ok s h e by eq in
    let found = p.promotable.stored in
    let a = promotion_of h e by in
    let sys = p.genome.system_id in
    (
      p.genome,
      found,
      ap (λ t. stack_hashes t sys) p.after
          ∙ stack-approval s a found
          ∙ ap (λ k. keep (differs k) (stack_hashes s sys) ++ k ∷ [])
              (find_genome-hash h s.genomes found),
      λ other ne.
          ap (λ t. stack_hashes t other) p.after
          ∙ stack-approval_other s a found other (ground (arith, eq_iff sys other)),
    )
