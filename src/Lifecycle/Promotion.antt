-- ===== src/Lifecycle/Promotion.antt =====
-- When `promote_to_production` succeeds (src/neuroforge/promotion/lifecycle.py).
use neuro_forge.Base.{
  String, ◌≡◌, refl, sym, subst, true, false, ◌↔◌, Option, none, some, arith, eq_iff, Option-cases,
  inl, inr, ok, ok_of_is_ok,
}
use mathlib.Core.Option
use neuro_forge.Genomes.{is_promoted}
use neuro_forge.Db.{
  GenomeRecord, PromotionRecord, CanaryRecord, ExperimentRecord, Session, get_genome_record,
  get_experiment, latest_promotion_decision, latest_canary_run, save_promotion_approval,
}
use neuro_forge.Db.Laws.{find_genome-hash}
use neuro_forge.Lifecycle.Log.{original_baseline, reconcile_production_statuses}
use neuro_forge.Lifecycle.Change.{
  truthy, or_else, PromotionOutcome, promote_to_production, promotion_of, validated_against,
  expected_baseline, require_genome, require_decision, require_canary,
  ensure_validated_against_production, ensure_current,
}

-- What `ensure_validated_against_production` lets through: a decision with no recorded baseline, a
-- production with nothing to compare with, or a baseline that is what runs now.
abbrev pub IsCurrent : Option String → Option GenomeRecord → Type 0
IsCurrent none _ = Unit
IsCurrent (some v) none = Unit
IsCurrent (some v) (some g) = v ≡ g.hash

-- What a decision about a genome of an application was measured against: the baseline that its
-- experiment names, or the original, where the experiment names none. Nothing is recorded where the
-- decision names no experiment, or one that is not stored.
pub data MeasuredAgainst (s : Session) (sys : String) (d : PromotionRecord)
    : Option String → Type 0 where
  no_experiment : truthy d.experiment_id ≡ none → MeasuredAgainst s sys d none
  lost_experiment :
      (id : String)
      → truthy d.experiment_id ≡ some id
      → get_experiment s id ≡ none
      → MeasuredAgainst s sys d none
  its_baseline :
      (id v : String) (e : ExperimentRecord)
      → truthy d.experiment_id ≡ some id
      → get_experiment s id ≡ some e
      → truthy e.config.baseline_hash ≡ some v
      → MeasuredAgainst s sys d (some v)
  the_original :
      (id : String) (e : ExperimentRecord)
      → truthy d.experiment_id ≡ some id
      → get_experiment s id ≡ some e
      → truthy e.config.baseline_hash ≡ none
      → MeasuredAgainst s sys d (Option.map (λ g. g.hash) (original_baseline s sys))

module _ (s : Session) (g : GenomeRecord) (d : PromotionRecord) where
  validated_against-MeasuredAgainst :
      latest_promotion_decision s g.hash ≡ some d
      → MeasuredAgainst s g.system_id d (validated_against s g)
  unfolding validated_against Option.bind
  validated_against-MeasuredAgainst found = rw found (by_id (truthy d.experiment_id) refl)
    where
      by_baseline :
          (id : String) (e : ExperimentRecord) (b : Option String)
          → truthy d.experiment_id ≡ some id
          → get_experiment s id ≡ some e
          → truthy e.config.baseline_hash ≡ b
          → MeasuredAgainst s g.system_id d
              (or_else b (Option.map (λ g. g.hash) (original_baseline s g.system_id)))
      by_baseline id e none p q r = the_original id e p q r
      by_baseline id e (some v) p q r = its_baseline id v e p q r

      by_row :
          (id : String) (o : Option ExperimentRecord)
          → truthy d.experiment_id ≡ some id
          → get_experiment s id ≡ o
          → MeasuredAgainst s g.system_id d (
              Option.bind o λ e.
                or_else
                  (truthy e.config.baseline_hash)
                  (Option.map (λ g. g.hash) (original_baseline s g.system_id)))
      by_row id none p q = lost_experiment id p q
      by_row id (some e) p q = by_baseline id e (truthy e.config.baseline_hash) p q refl

      by_id :
          (o : Option String)
          → truthy d.experiment_id ≡ o
          → MeasuredAgainst s g.system_id d (
              Option.bind o λ id. Option.bind (get_experiment s id) λ e.
                or_else
                  (truthy e.config.baseline_hash)
                  (Option.map (λ g. g.hash) (original_baseline s g.system_id)))
      by_id none p = no_experiment p
      by_id (some id) p = by_row id (get_experiment s id) p refl

  validated_against_lem :
      (v : Option String)
      → latest_promotion_decision s g.hash ≡ some d
      → MeasuredAgainst s g.system_id d v
      → validated_against s g ≡ v
  unfolding validated_against Option.bind
  validated_against_lem _ found (no_experiment p) = rw (found, p) refl
  validated_against_lem _ found (lost_experiment id p q) = rw (found, p, q) refl
  validated_against_lem _ found (its_baseline id v e p q r) = rw (found, p, q, r) refl
  validated_against_lem _ found (the_original id e p q r) = rw (found, p, q, r) refl

-- The preconditions of a promotion.
pub record IsPromotable (s : Session) (h : String) (g : GenomeRecord) : Type 0 where
  pub stored : get_genome_record s h ≡ some g
  pub not_promoted : is_promoted g.status ≡ false
  pub decision : PromotionRecord
  pub decided : latest_promotion_decision s h ≡ some decision
  pub is_approved : decision.approved ≡ true
  pub canary : CanaryRecord
  pub ran : latest_canary_run s h ≡ some canary
  pub kept : canary.rollback_triggered ≡ false
  pub validated : Option String
  pub against : MeasuredAgainst s g.system_id decision validated
  pub current : IsCurrent validated (expected_baseline s g.system_id)

ensure_current-eq-ok :
    (v : Option String) (o : Option GenomeRecord) → ensure_current v o ≡ ok tt → IsCurrent v o
unfolding ensure_current
ensure_current-eq-ok none o e = tt
ensure_current-eq-ok (some v) none e = tt
ensure_current-eq-ok (some v) (some g) e = ground (arith, eq_iff v g.hash)

ensure_current_ok :
    (v : Option String) (o : Option GenomeRecord) → IsCurrent v o → ensure_current v o ≡ ok tt
unfolding ensure_current
ensure_current_ok none o c = refl
ensure_current_ok (some v) none c = refl
ensure_current_ok (some v) (some g) c = ground (arith, eq_iff v g.hash)

require_decision-eq-ok :
    (s : Session) (h : String)
    → require_decision s h ≡ ok tt
    → (d : PromotionRecord) × (latest_promotion_decision s h ≡ some d) × (d.approved ≡ true)
unfolding require_decision
require_decision-eq-ok s h e = elim (Option-cases (latest_promotion_decision s h)) [
  | inl missing ↦ ground arith
  | inr (d, found) ↦ (d, found, ground arith)
]

require_canary-eq-ok :
    (s : Session) (h : String)
    → require_canary s h ≡ ok tt
    → (c : CanaryRecord) × (latest_canary_run s h ≡ some c) × (c.rollback_triggered ≡ false)
unfolding require_canary
require_canary-eq-ok s h e = elim (Option-cases (latest_canary_run s h)) [
  | inl missing ↦ ground arith
  | inr (c, found) ↦ (c, found, ground arith)
]

-- The genome that a promotion acts on, and the session that it leaves.
pub record Promotes (s : Session) (h : String) (e : Option String) (by : String) (s' : Session)
    : Type 0 where
  pub genome : GenomeRecord
  pub promotable : IsPromotable s h genome
  pub after :
      s'
      ≡ reconcile_production_statuses
          (save_promotion_approval s (promotion_of h e by))
          genome.system_id

module _ (s : Session) (h : String) (g : GenomeRecord) where
  IsPromotable-of_checks :
      get_genome_record s h ≡ some g
      → is_promoted g.status ≡ false
      → require_decision s h ≡ ok tt
      → require_canary s h ≡ ok tt
      → ensure_validated_against_production s g ≡ ok tt
      → IsPromotable s h g
  unfolding ensure_validated_against_production
  IsPromotable-of_checks found fresh decided ran current =
      let (d, has_decision, is_approved) = require_decision-eq-ok s h decided in
      let (c, has_canary, kept) = require_canary-eq-ok s h ran in
      record {
        stored = found;
        not_promoted = fresh;
        decision = d;
        decided = has_decision;
        is_approved = is_approved;
        canary = c;
        ran = has_canary;
        kept = kept;
        validated = validated_against s g;
        against = validated_against-MeasuredAgainst s g d (
            subst (λ i. latest_promotion_decision s i ≡ some d)
              (sym (find_genome-hash h s.genomes found)) has_decision);
        current =
            ensure_current-eq-ok (validated_against s g) (expected_baseline s g.system_id) current;
      }

pub promote-eq-ok :
    (s : Session) (h : String) (e : Option String) (by : String) {s' : Session}
    {out : PromotionOutcome}
    → promote_to_production s h e by ≡ ok (s', out)
    → Promotes s h e by s'
unfolding promote_to_production require_genome
promote-eq-ok s h e by {s'} {out} eq = elim (Option-cases (get_genome_record s h)) [
  | inl missing ↦ absurd (ground arith)
  | inr (g, found) ↦ record {
    genome = g;
    promotable =
        IsPromotable-of_checks s h g found (ground arith) (ground arith) (ground arith)
          (ground arith);
    after = ground arith;
  }
]

promote_ok :
    (s : Session) (h : String) (e : Option String) (by : String) (g : GenomeRecord)
    → IsPromotable s h g
    → (r : Session × PromotionOutcome) × (promote_to_production s h e by ≡ ok r)
unfolding promote_to_production require_genome require_decision require_canary
    ensure_validated_against_production
promote_ok s h e by g p =
    let decided =
      subst (λ i. latest_promotion_decision s i ≡ some p.decision)
        (sym (find_genome-hash h s.genomes p.stored)) p.decided in
    let current = ensure_current_ok (validated_against s g) (expected_baseline s g.system_id) (
      subst (λ v. IsCurrent v (expected_baseline s g.system_id))
        (sym (validated_against_lem s g p.decision p.validated decided p.against)) p.current) in
    ok_of_is_ok (promote_to_production s h e by) (ground (arith, current))

-- A promotion succeeds exactly when the genome is stored and not promoted, its latest decision
-- approves it, its latest canary did not roll back, and, where a baseline is recorded for the decision
-- and something is in production or the application has an original, that baseline is the champion, or,
-- without a champion, the original.
pub promote-iff-IsPromotable :
    (s : Session) (h : String) (e : Option String) (by : String)
    → ((r : Session × PromotionOutcome) × (promote_to_production s h e by ≡ ok r))
      ↔ ((g : GenomeRecord) × IsPromotable s h g)
promote-iff-IsPromotable s h e by = (
  λ (r, eq). let p = promote-eq-ok s h e by eq in (p.genome, p.promotable),
  λ (g, p). promote_ok s h e by g p,
)
