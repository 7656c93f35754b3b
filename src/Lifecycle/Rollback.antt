-- ===== src/Lifecycle/Rollback.antt =====
-- What `rollback_production` does to the stack (src/neuroforge/promotion/lifecycle.py).
use neuro_forge.Base.{
  String, ◌≡◌, ◌≢◌, refl, sym, subst, ◌∙◌, ap, false, Option, some, List, [], ◌∷◌, ◌++◌, map, keep,
  elem, All, differs, get_last?, arith, eq_iff, Option-cases, inl, inr, ok, ok_of_is_ok, Distinct,
  keep-last, keep_absent, map-append,
}
use neuro_forge.Db.{GenomeRecord, Session, get_genome_record, save_promotion_approval}
use neuro_forge.Lifecycle.Log.{production_stack, reconcile_production_statuses, is_promote}
use neuro_forge.Lifecycle.Change.{
  rollback_production, rollback_of, RollbackOutcome, promote_to_production, PromotionOutcome,
}
use neuro_forge.Lifecycle.Replay.{stack_hashes, push_key, hash_of}
use neuro_forge.Lifecycle.Stack.{stack-Distinct, production_stack-IsStored, IsStored}
use neuro_forge.Lifecycle.Champion.{stack-approval, stack-approval_other, promote-stack}

-- A list with a last element.
last-split :
    (st : List GenomeRecord) {c : GenomeRecord}
    → get_last? st ≡ some c
    → (xs : List GenomeRecord) × (st ≡ xs ++ c ∷ [])
last-split [] {c} e = absurd (ground arith)
last-split (x ∷ []) {c} e = ([], ground arith)
last-split (x ∷ y ∷ st) {c} e =
    let (xs, eq) = last-split (y ∷ st) {c = c} e in (x ∷ xs, ap (λ l. x ∷ l) eq)

All-last :
    (P : GenomeRecord → Type 0) (xs : List GenomeRecord) (c : GenomeRecord)
    → All P (xs ++ c ∷ [])
    → P c
All-last P [] c a = a.0
All-last P (x ∷ xs) c a = All-last P xs c a.1

pub record RollsBack (s : Session) (sys by : String) (s' : Session) : Type 0 where
  pub champion : GenomeRecord
  pub below : List GenomeRecord
  pub was : production_stack s sys ≡ below ++ champion ∷ []
  pub after :
      s'
      ≡ reconcile_production_statuses (save_promotion_approval s (rollback_of champion.hash by)) sys

pub rollback-eq-ok :
    (s : Session) (sys by : String) {s' : Session} {out : RollbackOutcome}
    → rollback_production s sys by ≡ ok (s', out)
    → RollsBack s sys by s'
unfolding rollback_production
rollback-eq-ok s sys by {s'} {out} eq = elim (Option-cases (get_last? (production_stack s sys))) [
  | inl missing ↦ absurd (ground arith)
  | inr (c, found) ↦
      let (xs, split) = last-split (production_stack s sys) {c = c} found in
      record { champion = c; below = xs; was = split; after = ground arith }
]

module _ (s : Session) (sys by : String) {s' : Session} (p : RollsBack s sys by s') where
  pub champion-IsStored : IsStored s sys p.champion
  champion-IsStored =
      All-last (IsStored s sys) p.below p.champion
        (subst (All (IsStored s sys)) p.was (production_stack-IsStored s sys))

  pub at_own_system :
      s'
      ≡ reconcile_production_statuses
          (save_promotion_approval s (rollback_of p.champion.hash by))
          p.champion.system_id
  at_own_system =
      p.after
      ∙ ap
          (reconcile_production_statuses
            (save_promotion_approval s (rollback_of p.champion.hash by)))
          (sym ((eq_iff p.champion.system_id sys).0 champion-IsStored.1))

  hashes_before : stack_hashes s sys ≡ map hash_of p.below ++ p.champion.hash ∷ []
  hashes_before = ap (map hash_of) p.was ∙ map-append hash_of p.below (p.champion ∷ [])

  hashes_after : stack_hashes s' sys ≡ map hash_of p.below
  unfolding push_key is_promote
  hashes_after =
      let h = p.champion.hash in
      let distinct = subst Distinct hashes_before (stack-Distinct s sys) in
      ap (λ t. stack_hashes t sys) at_own_system
      ∙ subst
          (λ k.
            stack_hashes
              (reconcile_production_statuses (save_promotion_approval s (rollback_of h by))
                p.champion.system_id)
              k
            ≡ push_key (stack_hashes s k) false h)
          ((eq_iff p.champion.system_id sys).0 champion-IsStored.1)
          (stack-approval s (rollback_of h by) champion-IsStored.0)
      ∙ ap (keep (differs h)) hashes_before
      ∙ keep-last h (map hash_of p.below) distinct

  hashes_other : (other : String) → other ≢ sys → stack_hashes s' other ≡ stack_hashes s other
  hashes_other other ne =
      ap (λ t. stack_hashes t other) at_own_system
      ∙ stack-approval_other s (rollback_of p.champion.hash by) champion-IsStored.0 other (
          ground (
            arith,
            eq_iff p.champion.system_id other,
            eq_iff p.champion.system_id sys,
            champion-IsStored,
          ))

-- A rollback takes the champion, and only it, off the stack of its application: the genome below it
-- is the champion again. No other application's stack changes.
pub rollback-stack :
    (s : Session) (sys by : String) {s' : Session} {out : RollbackOutcome}
    → rollback_production s sys by ≡ ok (s', out)
    → (h : String) × (stack_hashes s sys ≡ stack_hashes s' sys ++ h ∷ [])
      × ((other : String) → other ≢ sys → stack_hashes s' other ≡ stack_hashes s other)
rollback-stack s sys by {s'} {out} eq =
    let p = rollback-eq-ok s sys by eq in
    (
      p.champion.hash,
      hashes_before s sys by p
          ∙ ap (λ l. l ++ p.champion.hash ∷ []) (sym (hashes_after s sys by p)),
      hashes_other s sys by p,
    )

without_last : List String → List String
without_last [] = []
without_last (x ∷ []) = []
without_last (x ∷ y ∷ xs) = x ∷ without_last (y ∷ xs)

without_last-append : (xs : List String) (h : String) → without_last (xs ++ h ∷ []) ≡ xs
unfolding without_last
without_last-append [] h = refl
without_last-append (x ∷ []) h = refl
without_last-append (x ∷ y ∷ xs) h = ap (λ l. x ∷ l) (without_last-append (y ∷ xs) h)

last-of-hashes :
    (st : List GenomeRecord) (xs : List String) (h : String)
    → map hash_of st ≡ xs ++ h ∷ []
    → (c : GenomeRecord) × (get_last? st ≡ some c)
last-of-hashes [] [] h e = absurd (ground arith)
last-of-hashes [] (x ∷ xs) h e = absurd (ground arith)
last-of-hashes (g ∷ []) xs h e = (g, refl)
last-of-hashes (g ∷ g' ∷ st) [] h e = absurd (ground arith)
last-of-hashes (g ∷ g' ∷ st) (x ∷ xs) h e = last-of-hashes (g' ∷ st) xs h (ground arith)

rollback_ok :
    (s : Session) (sys by : String) (xs : List String) (h : String)
    → stack_hashes s sys ≡ xs ++ h ∷ []
    → (r : Session × RollbackOutcome) × (rollback_production s sys by ≡ ok r)
unfolding rollback_production
rollback_ok s sys by xs h e =
    let (c, last) = last-of-hashes (production_stack s sys) xs h e in
    ok_of_is_ok (rollback_production s sys by) (ground arith)

-- A promotion of a genome that is not in production yet can be rolled back, and the rollback leaves
-- the application with the stack, and so the champion, that it had before the promotion.
pub promote-rollback :
    (s : Session) (h : String) (e : Option String) (by by' : String) {s' : Session}
    {out : PromotionOutcome}
    → promote_to_production s h e by ≡ ok (s', out)
    → ((sys : String) → elem h (stack_hashes s sys) ≡ false)
    → (g : GenomeRecord) × (get_genome_record s h ≡ some g)
      × (r : Session × RollbackOutcome) × (rollback_production s' g.system_id by' ≡ ok r)
      × (stack_hashes r.0 g.system_id ≡ stack_hashes s g.system_id)
promote-rollback s h e by by' {s'} {out} eq fresh =
    let (g, found, top, _) = promote-stack s h e by eq in
    let pushed : stack_hashes s' g.system_id ≡ stack_hashes s g.system_id ++ h ∷ [] =
      top
      ∙ ap (λ l. l ++ h ∷ []) (keep_absent h (stack_hashes s g.system_id) (fresh g.system_id)) in
    let ((s'', out'), done) =
      rollback_ok s' g.system_id by' (stack_hashes s g.system_id) h pushed in
    let (k, split, _) = rollback-stack s' g.system_id by' done in
    (
      g,
      found,
      (s'', out'),
      done,
      sym (without_last-append (stack_hashes s'' g.system_id) k)
          ∙ ap without_last (sym split ∙ pushed)
          ∙ without_last-append (stack_hashes s g.system_id) h,
    )
