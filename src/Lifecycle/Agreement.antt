-- ===== src/Lifecycle/Agreement.antt =====
-- The status column agrees with the approval log, in every session that the pipeline reaches.
use neuro_forge.Base.{
  String, ◌≡◌, sym, subst, ◌∙◌, ap, Bool, true, false, not, ◌&&◌, Option, none, some, List, [], ◌∷◌,
  ◌++◌, elem, All, All-append, arith, eq_iff, ◌==◌, Option-cases, inl, inr, Bool-cases, is_some,
}
use neuro_forge.Genomes.{PromotionStatus, in_production}
use neuro_forge.Db.{
  GenomeRecord, ApprovalRecord, Session, get_genome_record, save_promotion_approval,
}
use neuro_forge.Lifecycle.Log.{reconcile_production_statuses}
use neuro_forge.Lifecycle.Replay.{stack_hashes}
use neuro_forge.Lifecycle.Reconcile.{
  wanted, wanted_absent, wanted_present, give, demote_row, named, get-reconcile,
  approvals-reconcile,
}
use neuro_forge.Lifecycle.Named.{stack-named, named-IsStored, named-approval}
use neuro_forge.Lifecycle.Champion.{stack_logged_other, stack-reconcile}

-- The status that a row has, given the place of its genome in the stack of its application.
abbrev pub Agrees : Option PromotionStatus → PromotionStatus → Type 0
Agrees none st = in_production st ≡ false
Agrees (some w) st = st ≡ w

-- Every stored genome has the status of its place; one that is in no stack is neither PROMOTED nor
-- SUPERSEDED. Every row of the log names a stored genome.
pub record StatusAgrees (s : Session) : Type 0 where
  pub agrees :
      (k : String) (g : GenomeRecord)
      → get_genome_record s k ≡ some g
      → Agrees (wanted (stack_hashes s g.system_id) k) g.status
  pub logged : All (λ a. is_some (get_genome_record s a.genome_hash) ≡ true) s.approvals

-- One row of the application, after both loops.
row_in_history :
    (hs : List String) (k : String) (r r' : GenomeRecord)
    → demote_row (not (elem k hs) && true) (give (wanted hs k) (some r)) ≡ some r'
    → Agrees (wanted hs k) r'.status × (r'.system_id ≡ r.system_id)
row_in_history hs k r r' e = elim (Bool-cases (elem k hs)) [
  | inl inside ↦ let (w, place) = wanted_present hs k inside in rw place (ground arith)
  | inr outside ↦ rw (wanted_absent hs k outside) (ground (arith, wanted_absent hs k outside))
]

row_elsewhere :
    (hs : List String) (k : String) (r r' : GenomeRecord)
    → elem k hs ≡ false
    → demote_row (not (elem k hs) && false) (give (wanted hs k) (some r)) ≡ some r'
    → r ≡ r'
row_elsewhere hs k r r' outside e = ground (arith, wanted_absent hs k outside)

module _ (s : Session) (a : ApprovalRecord) {g : GenomeRecord}
    (found : get_genome_record s a.genome_hash ≡ some g) where
  unnamed_row :
      (k : String) (r : GenomeRecord)
      → Agrees (wanted (stack_hashes s r.system_id) k) r.status
      → elem k (named (save_promotion_approval s a) g.system_id) ≡ false
      → Agrees (wanted (stack_hashes (save_promotion_approval s a) r.system_id) k) r.status
  unnamed_row k r agreed n = elim (Bool-cases (g.system_id == r.system_id)) [
    | inl same ↦
        let absent : wanted (stack_hashes s r.system_id) k ≡ none =
          wanted_absent (stack_hashes s r.system_id) k (
            subst (λ x. elem k (stack_hashes s x) ≡ false) ((eq_iff g.system_id r.system_id).0 same)
              (stack-named s g.system_id k (named-approval s a g.system_id k found n))) in
        let absent' : wanted (stack_hashes (save_promotion_approval s a) r.system_id) k ≡ none =
          wanted_absent (stack_hashes (save_promotion_approval s a) r.system_id) k (
            subst (λ x. elem k (stack_hashes (save_promotion_approval s a) x) ≡ false)
              ((eq_iff g.system_id r.system_id).0 same)
              (stack-named (save_promotion_approval s a) g.system_id k n)) in
        subst (λ w. Agrees w r.status) (absent ∙ sym absent') agreed
    | inr other ↦
        subst (λ hs. Agrees (wanted hs k) r.status)
          (sym (stack_logged_other s a found r.system_id other)) agreed
  ]

  logged_row :
      (k : String) (r r' : GenomeRecord)
      → get_genome_record s k ≡ some r
      → Agrees (wanted (stack_hashes s r.system_id) k) r.status
      → demote_row
          (not (elem k (stack_hashes (save_promotion_approval s a) g.system_id))
            && elem k (named (save_promotion_approval s a) g.system_id))
          (give (wanted (stack_hashes (save_promotion_approval s a) g.system_id) k) (some r))
        ≡ some r'
      → Agrees (wanted (stack_hashes (save_promotion_approval s a) r'.system_id) k) r'.status
  unfolding save_promotion_approval
  logged_row k r r' before agreed e =
      let logged = save_promotion_approval s a in
      let hs = stack_hashes logged g.system_id in
      elim (Bool-cases (elem k (named logged g.system_id))) [
        | inl inside ↦
            let (now, kept) = row_in_history hs k r r' (
              subst (λ b. demote_row (not (elem k hs) && b) (give (wanted hs k) (some r)) ≡ some r')
                inside e) in
            let own =
              (eq_iff r.system_id g.system_id).0
                (named-IsStored logged g.system_id k before inside) in
            subst (λ x. Agrees (wanted (stack_hashes logged x) k) r'.status) (sym (kept ∙ own)) now
        | inr outside ↦
            let same = row_elsewhere hs k r r' (stack-named logged g.system_id k outside) (
              subst (λ b. demote_row (not (elem k hs) && b) (give (wanted hs k) (some r)) ≡ some r')
                outside e) in
            subst (λ x. Agrees (wanted (stack_hashes logged x.system_id) k) x.status) same
              (unnamed_row k r agreed outside)
      ]

is_some-reconcile :
    (s : Session) (sys k : String)
    → is_some (get_genome_record (reconcile_production_statuses s sys) k)
      ≡ is_some (get_genome_record s k)
is_some-reconcile s sys k =
    ap is_some (get-reconcile s sys k)
    ∙ shape (not (elem k (stack_hashes s sys)) && elem k (named s sys))
        (wanted (stack_hashes s sys) k) (get_genome_record s k)
  where
    shape :
        (b : Bool) (w : Option PromotionStatus) (o : Option GenomeRecord)
        → is_some (demote_row b (give w o)) ≡ is_some o
    shape b w o = ground arith

pub All-transport :
    (s t : Session)
    → ((k : String)
        → is_some (get_genome_record s k) ≡ true
        → is_some (get_genome_record t k) ≡ true)
    → (log : List ApprovalRecord)
    → All (λ a. is_some (get_genome_record s a.genome_hash) ≡ true) log
    → All (λ a. is_some (get_genome_record t a.genome_hash) ≡ true) log
All-transport s t f [] all = tt
All-transport s t f (a ∷ log) all = (f a.genome_hash all.0, All-transport s t f log all.1)

-- One row of the log for a stored genome, and the reconciliation of its application.
pub log_step-StatusAgrees :
    (s : Session) (a : ApprovalRecord) {g : GenomeRecord}
    → get_genome_record s a.genome_hash ≡ some g
    → StatusAgrees s
    → StatusAgrees (reconcile_production_statuses (save_promotion_approval s a) g.system_id)
unfolding save_promotion_approval
log_step-StatusAgrees s a {g} found before =
    let logged = save_promotion_approval s a in
    let s' = reconcile_production_statuses logged g.system_id in
    record {
      agrees = λ k r' after. elim (Option-cases (get_genome_record s k)) [
        | inl missing ↦ absurd (ground (arith, is_some-reconcile logged g.system_id k))
        | inr (r, there) ↦
            subst (λ hs. Agrees (wanted hs k) r'.status)
              (sym (stack-reconcile logged g.system_id r'.system_id))
              (logged_row s a found k r r' there (before.agrees k r there) (
                ap
                  (λ o.
                    demote_row
                      (not (elem k (stack_hashes logged g.system_id))
                        && elem k (named logged g.system_id))
                      (give (wanted (stack_hashes logged g.system_id) k) o))
                  (sym there)
                ∙ sym (get-reconcile logged g.system_id k)
                ∙ after))
      ];
      logged =
          subst (All (λ b. is_some (get_genome_record s' b.genome_hash) ≡ true))
            (sym (approvals-reconcile logged g.system_id))
            (All-transport s s' (λ k h. is_some-reconcile logged g.system_id k ∙ h)
              (s.approvals ++ a ∷ [])
              (All-append (λ b. is_some (get_genome_record s b.genome_hash) ≡ true) s.approvals
                (a ∷ []) before.logged (ap is_some found, tt)));
    }
