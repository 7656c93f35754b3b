-- ===== src/Lifecycle/Reach.antt =====
-- Every session that the pipeline reaches: reviews, canaries, promotions and rollbacks, in any order.
use neuro_forge.Base.{
  String, ◌≡◌, refl, sym, subst, ◌∙◌, ap, Bool, true, false, Option, none, some, List, [], ◌∷◌,
  ◌++◌, All, arith, eq_iff, ◌==◌, if◌then◌else◌, Option-cases, inl, inr, Bool-cases, is_some, ok,
  get_last?,
}
use mathlib.Core.Option
use neuro_forge.Lifecycle.Stored.{save_genome-StatusAgrees}
use neuro_forge.Genomes.{PromotionStatus, promoted, rolled_back, canary, in_production}
use neuro_forge.Db.{
  GenomeRecord, PromotionRecord, CanaryRecord, Session, get_genome_record, find_genome, advance,
  advance_status, set_genome_status, review_from, canary_from, save_promotion_decision,
  save_canary_result, save_genome, list_production_events,
}
use neuro_forge.Db.Laws.{with_status}
use neuro_forge.Lifecycle.Log.{production_stack}
use neuro_forge.Lifecycle.Change.{
  promote_to_production, rollback_production, PromotionOutcome, RollbackOutcome, promotion_of,
  rollback_of,
}
use neuro_forge.Lifecycle.Replay.{
  stack_hashes, stack_hashes-eq-replay, history-set_status, replay_keys,
}
use neuro_forge.Lifecycle.Promotion.{promote-eq-ok}
use neuro_forge.Lifecycle.Rollback.{rollback-eq-ok, champion-IsStored, at_own_system}
use neuro_forge.Lifecycle.Reconcile.{wanted, get-set_status}
use neuro_forge.Lifecycle.Agreement.{Agrees, StatusAgrees, log_step-StatusAgrees, All-transport}

wanted-in_production :
    (hs : List String) (k : String) {w : PromotionStatus}
    → wanted hs k ≡ some w
    → in_production w ≡ true
unfolding wanted
wanted-in_production [] k {w} e = cc
wanted-in_production (h ∷ []) k {w} e = ground arith
wanted-in_production (h ∷ h' ∷ hs) k {w} e =
    ground (arith, wanted-in_production (h' ∷ hs) k {w = w})

stack-set_status :
    (s : Session) (h sys : String) (st : PromotionStatus)
    → stack_hashes (set_genome_status s h st) sys ≡ stack_hashes s sys
stack-set_status s h sys st =
    stack_hashes-eq-replay (set_genome_status s h st) sys
    ∙ ap (replay_keys []) (history-set_status s h sys st)
    ∙ sym (stack_hashes-eq-replay s sys)

is_some-set_status :
    (s : Session) (h k : String) (st : PromotionStatus)
    → is_some (get_genome_record s k) ≡ true
    → is_some (get_genome_record (set_genome_status s h st) k) ≡ true
is_some-set_status s h k st e = ground (arith, get-set_status s h k st)

logged-set_status :
    (s : Session) (h : String) (st : PromotionStatus)
    → All (λ a. is_some (get_genome_record s a.genome_hash) ≡ true) s.approvals
    → All
        (λ a. is_some (get_genome_record (set_genome_status s h st) a.genome_hash) ≡ true)
        (set_genome_status s h st).approvals
unfolding set_genome_status
logged-set_status s h st all =
    All-transport s (set_genome_status s h st) (λ k. is_some-set_status s h k st) s.approvals all

-- One status write keeps the agreement where the new status suits the genome's place.
module _ (s : Session) (h : String) (g : GenomeRecord) (found : get_genome_record s h ≡ some g)
    (st : PromotionStatus) (suits : Agrees (wanted (stack_hashes s g.system_id) h) st)
    (v : StatusAgrees s) where
  set_row :
      (k : String) (r : GenomeRecord)
      → (if h == k
          then Option.map (with_status st) (get_genome_record s k)
          else get_genome_record s k)
        ≡ some r
      → Agrees (wanted (stack_hashes s r.system_id) k) r.status
  set_row k r e = elim (Bool-cases (h == k)) [
    | inl same ↦
        let at_k = subst (λ x. get_genome_record s x ≡ some g) ((eq_iff h k).0 same) found in
        let e' : with_status st g ≡ r = ground arith in
        subst (λ x. Agrees (wanted (stack_hashes s x.system_id) k) x.status) e'
          (subst (λ x. Agrees (wanted (stack_hashes s g.system_id) x) st) ((eq_iff h k).0 same)
            suits)
    | inr other ↦ v.agrees k r (ground arith)
  ]

  set-StatusAgrees : StatusAgrees (set_genome_status s h st)
  set-StatusAgrees =
      let t = set_genome_status s h st in
      record {
        agrees = λ k r e.
            subst (λ hs. Agrees (wanted hs k) r.status) (sym (stack-set_status s h r.system_id st))
              (set_row k r (sym (get-set_status s h k st) ∙ e));
        logged = logged-set_status s h st v.logged;
      }

-- A status that a review or a canary may write, from where it may write it.
module _ (only_from : PromotionStatus → Bool) (new_status : PromotionStatus)
    (outside : in_production new_status ≡ false)
    (guarded : (st : PromotionStatus) → in_production st ≡ true → only_from st ≡ false) where
  advance-Agrees :
      (w : Option PromotionStatus) (old : PromotionStatus)
      → ((x : PromotionStatus) → w ≡ some x → in_production x ≡ true)
      → Agrees w old
      → Agrees w (advance only_from new_status old)
  unfolding advance
  advance-Agrees none old f a = ground arith
  advance-Agrees (some x) old f a = ground (arith, f x refl, guarded x)

  advance_status-StatusAgrees :
      (s : Session) (h : String)
      → StatusAgrees s
      → StatusAgrees (advance_status s h new_status only_from)
  unfolding advance_status
  advance_status-StatusAgrees s h v = elim (Option-cases (get_genome_record s h)) [
    | inl missing ↦ rw (missing, advance_status) v
    | inr (g, found) ↦
        rw (found, advance_status)
          (set-StatusAgrees s h g found (advance only_from new_status g.status)
            (advance-Agrees (wanted (stack_hashes s g.system_id) h) g.status
              (λ x e. wanted-in_production (stack_hashes s g.system_id) h {w = x} e)
              (v.agrees h g found))
            v)
  ]

review_guarded :
    (b : Bool) (st : PromotionStatus) → in_production st ≡ true → review_from b st ≡ false
review_guarded b st e = ground arith

canary_guarded : (st : PromotionStatus) → in_production st ≡ true → canary_from st ≡ false
canary_guarded st e = ground arith

with_decisions :
    (s : Session) (ds : List PromotionRecord)
    → StatusAgrees s
    → StatusAgrees (record s { decisions = ds })
unfolding production_stack list_production_events
with_decisions s ds v = record { agrees = v.agrees; logged = v.logged }

with_canaries :
    (s : Session) (cs : List CanaryRecord)
    → StatusAgrees s
    → StatusAgrees (record s { canaries = cs })
unfolding production_stack list_production_events
with_canaries s cs v = record { agrees = v.agrees; logged = v.logged }

-- A recorded review keeps the agreement.
save_promotion_decision-StatusAgrees :
    (s : Session) (d : PromotionRecord)
    → in_production d.next_status ≡ false
    → StatusAgrees s
    → StatusAgrees (save_promotion_decision s d)
unfolding save_promotion_decision
save_promotion_decision-StatusAgrees s d out v =
    advance_status-StatusAgrees (review_from d.approved) d.next_status out
      (review_guarded d.approved) (record s { decisions = s.decisions ++ d ∷ [] }) d.genome_hash
      (with_decisions s (s.decisions ++ d ∷ []) v)

save_canary_result-StatusAgrees :
    (s : Session) (c : CanaryRecord) → StatusAgrees s → StatusAgrees (save_canary_result s c)
unfolding save_canary_result
save_canary_result-StatusAgrees s c v =
    advance_status-StatusAgrees canary_from (if c.rollback_triggered then rolled_back else canary)
      (ground arith) canary_guarded (record s { canaries = s.canaries ++ c ∷ [] }) c.candidate_hash
      (with_canaries s (s.canaries ++ c ∷ []) v)

abbrev pub empty_session : Session
empty_session = record {
  genomes = [];
  experiments = [];
  decisions = [];
  canaries = [];
  approvals = [];
}

-- What the pipeline does to a session. A genome is saved, and a decision names, a status outside
-- production: genomes are derived as GENERATED, and the gates decide APPROVED or REJECTED.
pub data Step : Session → Session → Type 0 where
  saved :
      (s : Session) (g : GenomeRecord) → in_production g.status ≡ false → Step s (save_genome s g)
  reviewed :
      (s : Session) (d : PromotionRecord)
      → in_production d.next_status ≡ false
      → Step s (save_promotion_decision s d)
  ran_canary : (s : Session) (c : CanaryRecord) → Step s (save_canary_result s c)
  promotes :
      (s : Session) (h : String) (e : Option String) (by : String) {s' : Session}
      {out : PromotionOutcome}
      → promote_to_production s h e by ≡ ok (s', out)
      → Step s s'
  rolls_back :
      (s : Session) (sys by : String) {s' : Session} {out : RollbackOutcome}
      → rollback_production s sys by ≡ ok (s', out)
      → Step s s'

pub data Reach : Session → Type 0 where
  start : Reach empty_session
  next : {s t : Session} → Reach s → Step s t → Reach t

promote-StatusAgrees :
    (s : Session) (h : String) (e : Option String) (by : String) {s' : Session}
    {out : PromotionOutcome}
    → promote_to_production s h e by ≡ ok (s', out)
    → StatusAgrees s
    → StatusAgrees s'
promote-StatusAgrees s h e by eq v =
    let p = promote-eq-ok s h e by eq in
    subst StatusAgrees (sym p.after)
      (log_step-StatusAgrees s (promotion_of h e by) p.promotable.stored v)

rollback-StatusAgrees :
    (s : Session) (sys by : String) {s' : Session} {out : RollbackOutcome}
    → rollback_production s sys by ≡ ok (s', out)
    → StatusAgrees s
    → StatusAgrees s'
rollback-StatusAgrees s sys by eq v =
    let p = rollback-eq-ok s sys by eq in
    subst StatusAgrees (sym (at_own_system s sys by p))
      (log_step-StatusAgrees s (rollback_of p.champion.hash by) (champion-IsStored s sys by p).0 v)

Step-StatusAgrees : {s t : Session} → Step s t → StatusAgrees s → StatusAgrees t
Step-StatusAgrees (saved s g out) v = save_genome-StatusAgrees s g out v
Step-StatusAgrees (reviewed s d out) v = save_promotion_decision-StatusAgrees s d out v
Step-StatusAgrees (ran_canary s c) v = save_canary_result-StatusAgrees s c v
Step-StatusAgrees (promotes s h e by eq) v = promote-StatusAgrees s h e by eq v
Step-StatusAgrees (rolls_back s sys by eq) v = rollback-StatusAgrees s sys by eq v

-- In every session that the pipeline reaches from empty tables, each stored genome has the status of
-- its place: PROMOTED if it is on top of the stack of its application, SUPERSEDED if it is below, and
-- neither if the stack does not hold it.
pub Reach-StatusAgrees : {s : Session} → Reach s → StatusAgrees s
unfolding find_genome
Reach-StatusAgrees start = record { agrees = λ k g e. absurd (ground arith); logged = tt }
Reach-StatusAgrees (next r st) = Step-StatusAgrees st (Reach-StatusAgrees r)

wanted_top : (hs : List String) (k : String) → wanted hs k ≡ some promoted → get_last? hs ≡ some k
unfolding wanted
wanted_top [] k e = cc
wanted_top (h ∷ []) k e = ground (arith, eq_iff h k)
wanted_top (h ∷ h' ∷ hs) k e = ground (arith, wanted_top (h' ∷ hs) k)

promoted_on_top :
    {s : Session} (k : String) (g : GenomeRecord)
    → StatusAgrees s
    → get_genome_record s k ≡ some g
    → g.status ≡ promoted
    → get_last? (stack_hashes s g.system_id) ≡ some k
promoted_on_top {s} k g v found e =
    wanted_top (stack_hashes s g.system_id) k
      (only_promoted (wanted (stack_hashes s g.system_id) k) g.status e (v.agrees k g found))
  where
    only_promoted :
        (w : Option PromotionStatus) (st : PromotionStatus)
        → st ≡ promoted
        → Agrees w st
        → w ≡ some promoted
    only_promoted none st e a = absurd (ground arith)
    only_promoted (some w) st e a = cc

-- At most one genome of an application is PROMOTED at any time.
pub promoted_unique :
    {s : Session} (h k : String) {g r : GenomeRecord}
    → Reach s
    → get_genome_record s h ≡ some g
    → get_genome_record s k ≡ some r
    → g.status ≡ promoted
    → r.status ≡ promoted
    → g.system_id ≡ r.system_id
    → h ≡ k
promoted_unique {s} h k {g} {r} reached fh fk pg pr same =
    let v = Reach-StatusAgrees reached in
    let top = promoted_on_top h g v fh pg in
    let top' = promoted_on_top k r v fk pr in
    let both : some h ≡ some k = sym top ∙ ap (λ x. get_last? (stack_hashes s x)) same ∙ top' in cc
