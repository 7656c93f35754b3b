-- ===== src/Lifecycle/Examples.antt =====
-- The lifecycle on a small log: two candidates are promoted in turn, and one is rolled back.
use neuro_forge.Base.{
  String, ◌≡◌, refl, ◌++◌, true, false, none, some, [], ◌∷◌, ok, not, ◌&&◌, keep, differs, elem,
  Distinct, is_ok,
}
use mathlib.Core.Option
use mathlib.Core.Logic.{◌↔◌, ◌≢◌}
use neuro_forge.Genomes.{generated, approved, promoted, rolled_back, PromotionStatus-discrete}
use neuro_forge.Db.{
  GenomeRecord, PromotionRecord, CanaryRecord, Session, save_genome, save_promotion_decision,
  save_canary_result, get_genome_record, find_genome, latest, advance_status, advance,
  set_genome_status, join_events, join_row, list_production_events, list_genomes_for_system,
  save_promotion_approval,
}
use neuro_forge.Lifecycle.Log.{
  production_stack, current_champion, original_baseline, reconcile_production_statuses, replay,
  push_event, is_promote, mark_stack, sync_status, demote, demote_one,
}
use neuro_forge.Lifecycle.Change.{
  promote_to_production, rollback_production, require_genome, require_decision, require_canary,
  ensure_validated_against_production, ensure_current, validated_against, PromotionOutcome,
  RollbackOutcome, second_last?,
}
use neuro_forge.Lifecycle.Replay.{stack_hashes}
use neuro_forge.Lifecycle.Promotion.{IsPromotable, promote-iff-IsPromotable}
use neuro_forge.Lifecycle.Champion.{promote-stack}
use neuro_forge.Lifecycle.Rollback.{rollback-stack, promote-rollback}
use neuro_forge.Lifecycle.Stack.{stack-Distinct}
use neuro_forge.Lifecycle.Reconcile.{wanted, give, demote_row, named, get-reconcile}
use neuro_forge.Lifecycle.Agreement.{StatusAgrees}
use neuro_forge.Lifecycle.Reach.{
  Reach-StatusAgrees, Reach, start, next, saved, reviewed, ran_canary, promotes, empty_session,
  promoted_unique,
}

abbrev row : String → GenomeRecord
row h = record {
  hash = h;
  system_id = "app";
  version = 2;
  parent_hash = none;
  generation = 1;
  status = generated;
}

abbrev approval : String → PromotionRecord
approval h = record {
  genome_hash = h;
  experiment_id = none;
  approved = true;
  next_status = approved;
}

abbrev passed : String → CanaryRecord
passed h = record { baseline_hash = "v1"; candidate_hash = h; rollback_triggered = false }

abbrev reviewed_session : Session
reviewed_session =
    save_canary_result
      (save_promotion_decision (save_genome empty_session (row "a")) (approval "a")) (passed "a")

reviewed-Reach : Reach reviewed_session
reviewed-Reach =
    next
      (next (next start (saved empty_session (row "a") refl))
        (reviewed (save_genome empty_session (row "a")) (approval "a") refl))
      (ran_canary (save_promotion_decision (save_genome empty_session (row "a")) (approval "a"))
        (passed "a"))

abbrev live_session : Session
live_session = record {
  genomes =
      record {
        hash = "a";
        system_id = "app";
        version = 2;
        parent_hash = none;
        generation = 1;
        status = promoted;
      }
      ∷ [];
  experiments = [];
  decisions = approval "a" ∷ [];
  canaries = passed "a" ∷ [];
  approvals =
      record {
        genome_hash = "a";
        experiment_id = none;
        approved_by = "admin";
        action = some "promote";
      }
      ∷ [];
}

abbrev live_outcome : PromotionOutcome
live_outcome = record {
  promoted_genome = record {
    hash = "a";
    system_id = "app";
    version = 2;
    parent_hash = none;
    generation = 1;
    status = promoted;
  };
  superseded_genome = none;
}

promote_a :
    promote_to_production reviewed_session "a" none "admin" ≡ ok (live_session, live_outcome)
unfolding save_genome save_promotion_decision save_canary_result find_genome latest advance_status
    advance set_genome_status join_events join_row list_production_events list_genomes_for_system
    save_promotion_approval production_stack current_champion original_baseline
    reconcile_production_statuses replay push_event is_promote mark_stack sync_status demote
    demote_one promote_to_production require_genome require_decision require_canary
    PromotionStatus-discrete ensure_validated_against_production ensure_current validated_against
    Option.bind
promote_a = refl

live-Reach : Reach live_session
live-Reach = next reviewed-Reach (promotes reviewed_session "a" none "admin" promote_a)

abbrev rolled_session : Session
rolled_session = record {
  genomes =
      record {
        hash = "a";
        system_id = "app";
        version = 2;
        parent_hash = none;
        generation = 1;
        status = rolled_back;
      }
      ∷ [];
  experiments = [];
  decisions = approval "a" ∷ [];
  canaries = passed "a" ∷ [];
  approvals =
      live_session.approvals
      ++ record {
        genome_hash = "a";
        experiment_id = none;
        approved_by = "ops";
        action = some "rollback";
      }
        ∷ [];
}

rollback_a :
    rollback_production live_session "app" "ops"
    ≡ ok (
      rolled_session,
      record {
        rolled_back_genome = record {
          hash = "a";
          system_id = "app";
          version = 2;
          parent_hash = none;
          generation = 1;
          status = rolled_back;
        };
        restored = none;
      },
    )
unfolding find_genome set_genome_status join_events join_row list_production_events
    save_promotion_approval production_stack reconcile_production_statuses replay push_event
    is_promote mark_stack sync_status demote demote_one rollback_production second_last?
    PromotionStatus-discrete
rollback_a = refl

-- The candidate was measured against the original, which runs while nothing is promoted.
abbrev measured_session : Session
measured_session = record {
  genomes =
      record {
        hash = "v1";
        system_id = "app";
        version = 1;
        parent_hash = none;
        generation = 0;
        status = generated;
      }
      ∷ row "a"
      ∷ [];
  experiments =
      record {
        experiment_id = "e1";
        application_id = "app";
        status = "completed";
        config = record {
          domain_name = "forge-support";
          baseline_hash = some "v1";
          first_candidate_version = some 2;
          max_candidates = 200;
          max_batches = 20;
          batch_size = 16;
          dataset_id = none;
        };
        result = none;
      }
      ∷ [];
  decisions =
      record {
        genome_hash = "a";
        experiment_id = some "e1";
        approved = true;
        next_status = approved;
      }
      ∷ [];
  canaries = passed "a" ∷ [];
  approvals = [];
}

promote_measured : is_ok (promote_to_production measured_session "a" (some "e1") "admin") ≡ true
unfolding find_genome latest list_production_events list_genomes_for_system production_stack
    current_champion original_baseline replay promote_to_production require_genome require_decision
    require_canary PromotionStatus-discrete ensure_validated_against_production ensure_current
    validated_against Option.bind join_events
promote_measured = refl

promote-iff-IsPromotable_example :
    ((r : Session × PromotionOutcome) × (promote_to_production measured_session "a"
          (some "e1")
          "admin"
        ≡ ok r))
    ↔ ((g : GenomeRecord) × IsPromotable measured_session "a" g)
promote-iff-IsPromotable_example = promote-iff-IsPromotable measured_session "a" (some "e1") "admin"

promote-stack_example :
    (g : GenomeRecord) × (get_genome_record reviewed_session "a" ≡ some g)
    × (stack_hashes live_session g.system_id
        ≡ keep (differs "a") (stack_hashes reviewed_session g.system_id) ++ "a" ∷ [])
    × ((sys : String)
        → sys ≢ g.system_id
        → stack_hashes live_session sys ≡ stack_hashes reviewed_session sys)
promote-stack_example = promote-stack reviewed_session "a" none "admin" promote_a

rollback-stack_example :
    (h : String) × (stack_hashes live_session "app" ≡ stack_hashes rolled_session "app" ++ h ∷ [])
    × ((other : String)
        → other ≢ "app"
        → stack_hashes rolled_session other ≡ stack_hashes live_session other)
rollback-stack_example = rollback-stack live_session "app" "ops" rollback_a

-- Nothing was in production before the promotion.
nothing_live : (sys : String) → elem "a" (stack_hashes reviewed_session sys) ≡ false
unfolding save_genome save_promotion_decision save_canary_result find_genome advance_status advance
    set_genome_status join_events list_production_events production_stack replay
nothing_live sys = refl

promote-rollback_example :
    (g : GenomeRecord) × (get_genome_record reviewed_session "a" ≡ some g)
    × (r : Session × RollbackOutcome) × (rollback_production live_session g.system_id "ops" ≡ ok r)
    × (stack_hashes r.0 g.system_id ≡ stack_hashes reviewed_session g.system_id)
promote-rollback_example =
    promote-rollback reviewed_session "a" none "admin" "ops" promote_a nothing_live

get-reconcile_example :
    get_genome_record (reconcile_production_statuses live_session "app") "a"
    ≡ demote_row
        (not (elem "a" (stack_hashes live_session "app")) && elem "a" (named live_session "app"))
        (give (wanted (stack_hashes live_session "app") "a") (get_genome_record live_session "a"))
get-reconcile_example = get-reconcile live_session "app" "a"

stack-Distinct_example : Distinct (stack_hashes live_session "app")
stack-Distinct_example = stack-Distinct live_session "app"

Reach-StatusAgrees_example : StatusAgrees live_session
Reach-StatusAgrees_example = Reach-StatusAgrees live-Reach

promoted_unique_example : ◌≡◌ {A = String} "a" "a"
unfolding find_genome
promoted_unique_example = promoted_unique "a" "a" live-Reach refl refl refl refl refl
