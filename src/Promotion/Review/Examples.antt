-- ===== src/Promotion/Review/Examples.antt =====
-- A holdout of ten challenges on which a candidate is measured, and a review that uses the measurement
-- again, in fixed-point numbers.
use neuro_forge.Base.{
  ℕ, String, none, some, List, [], ◌∷◌, map, false, true, ◌==◌, if◌then◌else◌, refl, Returns,
  Succeeds, is_ok, ◌≡◌,
}
use neuro_forge.Base.Int.{ℤ, pos, ◌+ℤ◌}
use neuro_forge.Base.Float.Fixed.{fixed}
use neuro_forge.Genomes.{generated}
use neuro_forge.Evaluation.Metrics.{EvaluationResult, AggregateMetrics, get_or, likely_improvement}
use neuro_forge.Evaluation.Aggregate.{
  aggregate, mean_of, category_quality, sorted_set, insert_name, all_keys, in_category,
}
use neuro_forge.Evaluation.Statistics.{Numerics}
use neuro_forge.Promotion.Safety.{Side}
use neuro_forge.Promotion.Examples.{default_gates, default_limits}
use neuro_forge.Promotion.Holdout.{HoldoutEvidence, evaluate_on_holdout}
use neuro_forge.Promotion.Holdout.Decided.{
  DecidesAs, evaluate_on_holdout-DecidesAs, is_ok-evaluate_on_holdout,
}
use neuro_forge.Promotion.Review.{ReviewSettings, review_promotion}
use neuro_forge.Promotion.Review.Sound.{IsReviewed, review_promotion-IsReviewed}
use neuro_forge.Datasets.{Challenge, DatasetVersion, split_of}
use neuro_forge.Db.{Session, StoredConfig}
use neuro_forge.Store.{Store}

abbrev numerics : Numerics fixed
numerics = record {
  mean = λ xs. pos 100000;
  std = λ xs. pos 0;
  bootstrap_ci = λ xs confidence seed. (pos 50000, pos 150000);
}

abbrev bound : List ℤ → Side → ℤ → ℕ → ℤ
bound xs side confidence seed = pos 900000

-- The candidate is better by 0.1.
abbrev evaluate : String → String → Challenge ℤ → EvaluationResult ℤ
evaluate domain h c = record {
  challenge_id = c.challenge_id;
  genome_hash = h;
  metrics = ("quality", if h == "base" then pos 600000 else pos 700000) ∷ [];
  cost_usd = pos 1000;
  latency_ms = pos 200000000;
  failed = false;
}

abbrev held_out : String → Challenge ℤ
held_out i = record {
  challenge_id = i;
  category = "faq";
  difficulty = pos 500000;
  split = "holdout";
}

abbrev dataset : DatasetVersion ℤ
dataset = record {
  dataset_id = "support-dataset";
  version = 1;
  parent_version = none;
  source = "seed";
  challenges =
      map held_out ("c0" ∷ "c1" ∷ "c2" ∷ "c3" ∷ "c4" ∷ "c5" ∷ "c6" ∷ "c7" ∷ "c8" ∷ "c9" ∷ []);
  difficulty_score = pos 500000;
  validated = true;
}

abbrev measured_as : String → ℤ → AggregateMetrics ℤ
measured_as h quality = record {
  genome_hash = h;
  n_evaluations = 10;
  metrics = ("quality", quality) ∷ [];
  cost_usd = pos 1000;
  latency_ms = pos 200000000;
  failure_rate = pos 0;
  per_category_quality = ("faq", quality) ∷ [];
}

is_ok-evaluate_on_holdout_example :
    is_ok (
      evaluate_on_holdout fixed numerics bound
        (evaluate "support")
        "base"
        "cand"
        dataset
        (pos 950000)
        (pos 20000)
        7)
    ≡ true
unfolding split_of
is_ok-evaluate_on_holdout_example =
    is_ok-evaluate_on_holdout fixed numerics bound (evaluate "support") "base" "cand" dataset
      (pos 950000) (pos 20000) 7

evaluate_on_holdout-DecidesAs_example :
    Succeeds
      (DecidesAs fixed numerics bound
        (evaluate "support")
        "base"
        "cand"
        dataset
        (pos 950000)
        (pos 20000)
        7
        default_gates
        default_limits
        (measured_as "base" (pos 600000))
        (measured_as "cand" (pos 700000))
        (split_of dataset "holdout"))
      (evaluate_on_holdout fixed numerics bound
        (evaluate "support")
        "base"
        "cand"
        dataset
        (pos 950000)
        (pos 20000)
        7)
unfolding ◌+ℤ◌ split_of aggregate mean_of category_quality sorted_set insert_name all_keys
    in_category get_or
evaluate_on_holdout-DecidesAs_example =
    evaluate_on_holdout-DecidesAs fixed numerics bound (evaluate "support") "base" "cand" dataset
      (pos 950000) (pos 20000) 7 default_gates default_limits (measured_as "base" (pos 600000))
      (measured_as "cand" (pos 700000)) refl refl refl

abbrev evidence : HoldoutEvidence ℤ
evidence = record {
  dataset_id = "support-dataset";
  dataset_version = 1;
  baseline_hash = "base";
  n_holdout = 10;
  baseline_metrics = ("quality", pos 600000) ∷ [];
  candidate_metrics = ("quality", pos 700000) ∷ [];
  comparison = record {
    mean_diff = pos 100000;
    relative_diff = pos 166667;
    ci_low = pos 83334;
    ci_high = pos 250000;
    effect_size = pos 0;
    confidence = pos 950000;
    conclusion = likely_improvement;
  };
  safety = record {
    n = 10;
    confidence = pos 950000;
    has_policy_metric = false;
    policy_violation_rate = pos 0;
    policy_violation_upper = pos 0;
    safety_score = pos 1000000;
    safety_score_lower = pos 900000;
  };
}

abbrev config : StoredConfig
config = record {
  domain_name = "forge-support";
  baseline_hash = some "base";
  first_candidate_version = some 2;
  max_candidates = 200;
  max_batches = 20;
  batch_size = 16;
  dataset_id = none;
}

abbrev session : Session
session = record {
  genomes =
      record {
        hash = "cand";
        system_id = "support";
        version = 2;
        parent_hash = some "base";
        generation = 1;
        status = generated;
      }
      ∷ [];
  experiments =
      record {
        experiment_id = "e1";
        application_id = "support";
        status = "completed";
        config = config;
        result = some (record {
          dataset_id = none;
          dataset_version = some 1;
          baseline_genome = "base";
          best_genome = record {
            hash = "cand";
            system_id = "support";
            version = 2;
            parent_hash = some "base";
            generation = 1;
            status = generated;
          };
        });
      }
      ∷ [];
  decisions = [];
  canaries = [];
  approvals = [];
}

abbrev store : Store ℤ
store = record {
  session = session;
  applications = [];
  datasets = dataset ∷ [];
  evaluations =
      record {
        genome_hash = "cand";
        experiment_id = some "e1";
        dataset_id = "support-dataset";
        dataset_version = 1;
        evidence = evidence;
      }
      ∷ [];
}

abbrev settings : String → ReviewSettings ℤ
settings experiment_id = record {
  confidence = pos 950000;
  min_relative_improvement = pos 20000;
  seed = 7;
  promotion_gates = default_gates;
  safety_constraints = default_limits;
}

review_promotion-IsReviewed_example :
    Returns
      (IsReviewed fixed numerics bound evaluate settings store "e1" "cand")
      (review_promotion fixed numerics bound evaluate settings store "e1" "cand")
review_promotion-IsReviewed_example =
    review_promotion-IsReviewed fixed numerics bound evaluate settings store "e1" "cand"
      ((refl, refl), tt) (refl, tt)
