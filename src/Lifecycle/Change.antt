-- ===== src/Lifecycle/Change.antt =====
-- The production changes: promotion with its preconditions, and rollback
-- (src/neuroforge/promotion/lifecycle.py).
use neuro_forge.Base.{
  String, not, Option, none, some, List, [], ◌∷◌, get_last?, ◌==◌, if◌then◌else◌, Result, ok, err,
  ◌>>=◌, ◌>>◌, raise_if,
}
use mathlib.Core.Option
use neuro_forge.Genomes.{is_promoted}
use neuro_forge.Db.{
  GenomeRecord, ApprovalRecord, Session, get_genome_record, save_promotion_approval,
  latest_promotion_decision, latest_canary_run, get_experiment,
}
use neuro_forge.Lifecycle.Log.{
  production_stack, current_champion, original_baseline, reconcile_production_statuses,
}

-- The exceptions below `ProductionError`, with what their messages show.
pub data ProductionError : Type 0 where
  unknown_genome : String → ProductionError
  already_promoted no_approved_decision no_canary canary_rolled_back : ProductionError
  stale_baseline : String → String → ProductionError
  nothing_in_production unknown_baseline : String → ProductionError

-- A text that Python takes for true.
abbrev pub truthy : Option String → Option String
truthy none = none
truthy (some t) = if t == "" then none else some t

abbrev pub or_else {ℓ} : {A : Type ℓ} → Option A → Option A → Option A
or_else (some a) other = some a
or_else none other = other

-- `_validated_against`: the baseline that the latest decision was measured against.
unfoldable pub validated_against : Session → GenomeRecord → Option String
validated_against s genome = Option.bind (latest_promotion_decision s genome.hash) λ decision.
    Option.bind (truthy decision.experiment_id) λ experiment_id.
      Option.bind (get_experiment s experiment_id) λ experiment.
        or_else (truthy experiment.config.baseline_hash)
          (Option.map (λ g. g.hash) (original_baseline s genome.system_id))

-- What runs in production now: the champion, or the original when nothing has been promoted.
abbrev pub expected_baseline : Session → String → Option GenomeRecord
expected_baseline s sys = or_else (current_champion s sys) (original_baseline s sys)

unfoldable pub ensure_current :
    Option String → Option GenomeRecord → Result ProductionError (Unit {0})
ensure_current none expected = ok tt
ensure_current (some validated) none = ok tt
ensure_current (some validated) (some expected) =
    raise_if (not (validated == expected.hash)) (stale_baseline validated expected.hash)

unfoldable pub ensure_validated_against_production :
    Session → GenomeRecord → Result ProductionError (Unit {0})
ensure_validated_against_production s genome =
    ensure_current (validated_against s genome) (expected_baseline s genome.system_id)

pub record PromotionOutcome : Type 0 where
  pub promoted_genome : GenomeRecord
  pub superseded_genome : Option GenomeRecord

pub record RollbackOutcome : Type 0 where
  pub rolled_back_genome : GenomeRecord
  pub restored : Option GenomeRecord

unfoldable pub require_genome : Session → String → Result ProductionError GenomeRecord
require_genome s h = elim (get_genome_record s h) [ none ↦ err (unknown_genome h) | some g ↦ ok g ]

unfoldable pub require_decision : Session → String → Result ProductionError (Unit {0})
require_decision s h = elim (latest_promotion_decision s h) [
  | none ↦ err no_approved_decision
  | some d ↦ raise_if (not d.approved) no_approved_decision
]

unfoldable pub require_canary : Session → String → Result ProductionError (Unit {0})
require_canary s h = elim (latest_canary_run s h) [
  | none ↦ err no_canary
  | some c ↦ raise_if c.rollback_triggered canary_rolled_back
]

-- `previous if previous and previous.hash != genome_hash else None`
abbrev pub other_genome : Option GenomeRecord → String → Option GenomeRecord
other_genome none h = none
other_genome (some g) h = if g.hash == h then none else some g

abbrev pub promotion_of : String → Option String → String → ApprovalRecord
promotion_of h experiment_id approved_by = record {
  genome_hash = h;
  experiment_id = experiment_id;
  approved_by = approved_by;
  action = some "promote";
}

abbrev pub rollback_of : String → String → ApprovalRecord
rollback_of h approved_by = record {
  genome_hash = h;
  experiment_id = none;
  approved_by = approved_by;
  action = some "rollback";
}

-- The rows that an outcome holds are the session's own: they show what was written since.
abbrev pub reload : Session → GenomeRecord → GenomeRecord
reload s g = elim (get_genome_record s g.hash) [ none ↦ g | some row ↦ row ]

unfoldable pub promote_to_production :
    Session → String → Option String → String → Result ProductionError (Session × PromotionOutcome)
unfolding require_genome require_decision require_canary ensure_validated_against_production
    current_champion reconcile_production_statuses save_promotion_approval
promote_to_production s h experiment_id approved_by = do
  genome ← require_genome s h
  raise_if (is_promoted genome.status) already_promoted
  require_decision s h
  require_canary s h
  ensure_validated_against_production s genome
  let previous = current_champion s genome.system_id
  let logged = save_promotion_approval s (promotion_of h experiment_id approved_by)
  let after = reconcile_production_statuses logged genome.system_id
  ok (
    after,
    record {
      promoted_genome = reload after genome;
      superseded_genome = Option.map (reload after) (other_genome previous h);
    },
  )

-- `stack[-2] if len(stack) >= 2 else None`
unfoldable pub second_last? : List GenomeRecord → Option GenomeRecord
second_last? [] = none
second_last? (x ∷ []) = none
second_last? (x ∷ y ∷ []) = some x
second_last? (x ∷ y ∷ z ∷ xs) = second_last? (y ∷ z ∷ xs)

unfoldable pub rollback_production :
    Session → String → String → Result ProductionError (Session × RollbackOutcome)
rollback_production s sys approved_by =
    let stack = production_stack s sys in
    elim (get_last? stack) [
      | none ↦ err (nothing_in_production sys)
      | some current ↦
          let logged = save_promotion_approval s (rollback_of current.hash approved_by) in
          let after = reconcile_production_statuses logged sys in
          ok (
            after,
            record {
              rolled_back_genome = reload after current;
              restored = Option.map (reload after) (second_last? stack);
            },
          )
    ]
