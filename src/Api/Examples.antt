-- ===== src/Api/Examples.antt =====
-- An experiment is created, and an administrator takes a genome into production, in fixed-point numbers. A key is its own fingerprint
-- and its own hash.
use neuro_forge.Base.{
  ℕ, String, Bool, true, false, none, some, List, [], ◌∷◌, ◌==◌, arith, Returns, ok, ◌≡◌,
}
use neuro_forge.Base.Int.{ℤ, pos}
use neuro_forge.Base.Float.Fixed.{fixed}
use neuro_forge.Genomes.{canary, approved}
use neuro_forge.Db.{Session}
use neuro_forge.Store.{Store}
use neuro_forge.Experiments.Configure.{section_paths, named_by, unknown_items, build_search_space}
use neuro_forge.Experiments.Configure.Named.{build_search_space_named}
use neuro_forge.Api.Experiments.{ExperimentCreateRequest, Domains, create_experiment}
use neuro_forge.Api.Experiments.Created.{Creates, create_experiment-IsCreated}
use neuro_forge.Api.Auth.{Principal, RateLimiter, AuthState, get_principal}
use neuro_forge.Api.Auth.Tracked.{IsWithin, get_principal-IsWithin}
use neuro_forge.Api.Auth.Genuine.{IsSound, get_principal-IsSound}
use neuro_forge.Api.Endpoint.{ApiState, Request, endpoint}
use neuro_forge.Api.Promotions.{finalize_promotion}
use neuro_forge.Api.Promotions.SignedOff.{IsSignedOff, finalize_promotion-IsSignedOff}

abbrev fingerprint : String → String
fingerprint k = k

abbrev verify : String → String → Bool
verify k h = k == h

abbrev limiter : ℤ → ℤ → RateLimiter ℤ
limiter capacity refill = record { capacity = capacity; refill_per_second = refill; buckets = [] }

abbrev auth : AuthState ℤ
auth = record {
  rate_limiter = limiter (pos 60000000) (pos 1000000);
  failure_limiter = limiter (pos 10000000) (pos 200000);
  verified = [];
  api_keys =
      record { name = "ci"; key_hash = "nf_ci"; role = "operator" }
      ∷ record { name = "admin"; key_hash = "nf_admin"; role = "admin" }
      ∷ [];
}

-- A genome that was approved and ran its canary.
abbrev reviewed_session : Session
reviewed_session = record {
  genomes =
      record {
        hash = "a";
        system_id = "app";
        version = 2;
        parent_hash = none;
        generation = 1;
        status = canary;
      }
      ∷ [];
  experiments = [];
  decisions =
      record { genome_hash = "a"; experiment_id = none; approved = true; next_status = approved }
      ∷ [];
  canaries = record { baseline_hash = "v1"; candidate_hash = "a"; rollback_triggered = false } ∷ [];
  approvals = [];
}

abbrev store : Store ℤ
store = record { session = reviewed_session; applications = []; datasets = []; evaluations = [] }

abbrev state : ApiState ℤ
state = record { auth = auth; store = store; audit_log = [] }

abbrev request : Request
request = record { client = "10.0.0.1"; raw_key = some "nf_admin" }

finalize_promotion-IsSignedOff_example :
    IsSignedOff fixed fingerprint verify "a" none state request (
      endpoint fixed fingerprint verify "admin"
        (finalize_promotion "a" none)
        state
        request
        (pos 5000000))
finalize_promotion-IsSignedOff_example =
    finalize_promotion-IsSignedOff fixed fingerprint verify "a" none state request (λ a b e. e)
      (pos 5000000) tt

get_principal-IsSound_example :
    IsSound fixed fingerprint verify auth.api_keys
      (some "nf_ci")
      (get_principal fixed fingerprint verify auth "10.0.0.1" (some "nf_ci") (pos 5000000))
get_principal-IsSound_example =
    get_principal-IsSound fixed fingerprint verify (λ a b e. e) auth "10.0.0.1" (some "nf_ci")
      (pos 5000000) tt

get_principal-IsWithin_example :
    IsWithin fixed
      (get_principal fixed fingerprint verify auth "10.0.0.1" (some "nf_ci") (pos 5000000)).0
get_principal-IsWithin_example =
    get_principal-IsWithin fixed fingerprint verify auth "10.0.0.1" (some "nf_ci") (pos 5000000)
      (record { rates = omega arith; failures = omega arith; cached = omega arith })

abbrev domains_space : List (String × ℕ)
domains_space = ("prompt.strategy", 5) ∷ ("prompt.include_examples", 2) ∷ []

abbrev domains : Domains ℤ ℕ
domains = record {
  seed_dataset = λ domain dataset_id seed. ok (record {
    dataset_id = dataset_id;
    version = 1;
    parent_version = none;
    source = "seed";
    challenges = [];
    difficulty_score = pos 0;
    validated = true;
  });
  search_space = λ domain. domains_space;
  objectives_error = λ body. none;
  original_hash = λ system_id. system_id;
  section_of = λ path. "prompt";
  id_prefix = λ id. "fs";
  split_version = λ spec. none;
}

abbrev creation : ExperimentCreateRequest
creation = record {
  experiment_id = "e1";
  system_id = "app";
  domain = "forge-support";
  dataset_id = none;
  baseline = "champion";
  seed = 42;
  batch_size = 16;
  max_batches = 20;
  max_candidates = 200;
  search_dimensions = "prompt" ∷ [];
}

abbrev operator : Principal
operator = record { name = "ci"; role = "operator" }

create_experiment-IsCreated_example :
    Returns
      (Creates domains creation state operator)
      (create_experiment domains creation state operator)
create_experiment-IsCreated_example = create_experiment-IsCreated domains creation state operator

build_search_space_named_example :
    build_search_space (λ path. "prompt") domains_space ("prompt" ∷ []) ≡ ok domains_space
unfolding section_paths named_by unknown_items
build_search_space_named_example =
    build_search_space_named (λ path. "prompt") domains_space ("prompt" ∷ [])
