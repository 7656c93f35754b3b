-- ===== src/Experiments/Candidate/Allowed.antt =====
-- The search touches only the fields that the policy allows (src/neuroforge/experiments/engine.py,
-- `_run`; src/neuroforge/genomes/schema.py, `derive`).
use neuro_forge.Base.{
  ℕ, ◌+◌, String, ◌≡◌, refl, subst, Bool, true, false, not, Option, none, some, List, [], ◌∷◌, map,
  keep, elem, All, arith, eq_iff, ◌==◌, Result, ok, err, ◌>>◌, or_raise, raise_if, Returns,
  Returns-bind, Returns-bind_any, Bool-cases, inl, inr, if◌then◌else◌,
}
use neuro_forge.Base.Float.{Floats}
use neuro_forge.Genomes.{generated}
use neuro_forge.Genomes.Schema.Overrides.{get_field-deep_set}
use neuro_forge.Genomes.Schema.{Fields, SystemGenome, MutationRecord, get_field, deep_set, derive}
use neuro_forge.Mutations.Policy.{MutationPolicy, is_allowed}
use neuro_forge.Evaluation.Metrics.{AggregateMetrics}
use neuro_forge.Evaluation.Aggregate.{aggregate}
use neuro_forge.Promotion.Safety.{is_empty}
use neuro_forge.Datasets.{Challenge}
use neuro_forge.Experiments.Candidate.{
  ExperimentConfig, Surroundings, EngineError, check_points, mutation_records, derive_points,
  score_candidate, score_candidates, evaluate_candidate, evaluate_points, disallowed_fields,
  no_results, value_out_of_range,
}

keep-none :
    (policy : MutationPolicy) (path : String)
    → is_allowed policy path ≡ false
    → (ks : List String) → is_empty (keep (λ f. not (is_allowed policy f)) ks) ≡ true
    → elem path ks ≡ false
keep-none policy path h [] e = refl
keep-none policy path h (k ∷ ks) e = elim (Bool-cases (path == k)) [
  | inl same ↦
      let q : is_allowed policy k ≡ false =
        subst (λ x. is_allowed policy x ≡ false) ((eq_iff path k).0 same) h in
      ground arith
  | inr other ↦ ground (arith, keep-none policy path h ks)
]

module _ {V : Type 0} where
  abbrev paths : Fields V → List String
  paths p = map (λ kv. kv.0) p

  abbrev IsPermitted : MutationPolicy → Fields V → Type 0
  IsPermitted policy p =
      (path : String) → is_allowed policy path ≡ false → elem path (paths p) ≡ false

  check_points-IsPermitted :
      (policy : MutationPolicy) (ps : List (Fields V))
      → Returns (λ _. All (IsPermitted policy) ps) (check_points policy ps)
  unfolding check_points
  check_points-IsPermitted policy [] = tt
  check_points-IsPermitted policy (p ∷ ps) =
      go (is_empty (keep (λ f. not (is_allowed policy f)) (paths p))) refl (check_points policy ps)
        (check_points-IsPermitted policy ps)
    where
      go :
          (b : Bool)
          → is_empty (keep (λ f. not (is_allowed policy f)) (paths p)) ≡ b
          → (r : Result EngineError (Unit {0})) → Returns (λ _. All (IsPermitted policy) ps) r
          → Returns
              (λ _. All (IsPermitted policy) (p ∷ ps))
              (raise_if
                  (not b)
                  (disallowed_fields (keep (λ f. not (is_allowed policy f)) (paths p)))
                >> r)
      go true e (ok _) h = ((λ path n. keep-none policy path n (paths p) e), h)
      go true e (err x) h = tt
      go false e r h = tt

module _ (fl : Floats) {V : Type 0} (config : ExperimentConfig fl.F)
    (env : Surroundings fl.F V) where
  open fl use {F}

  abbrev policy : MutationPolicy
  policy = config.mutation_policy

  -- A genome whose fields are the baseline's wherever the policy allows no change.
  abbrev pub Fits : SystemGenome V → SystemGenome V → Type 0
  Fits baseline g =
      (path : String)
      → is_allowed config.mutation_policy path ≡ false
      → get_field g.fields path ≡ get_field baseline.fields path

  derive-Fits :
      (baseline : SystemGenome V) (records : List (MutationRecord V)) (p : Fields V) (v : ℕ)
      (generation : Option ℕ)
      → IsPermitted policy p
      → Returns (Fits baseline) (
          or_raise
            (derive env.hash env.in_range baseline records p v generation)
            value_out_of_range)
  unfolding derive
  derive-Fits baseline records p v generation h =
      elim (env.in_range (deep_set baseline.fields p))
        as (λ b. Returns (Fits baseline) (
          or_raise
            (if b
              then some (record {
                system_id = baseline.system_id;
                version = v;
                parent_hash = some (env.hash baseline.system_id baseline.fields);
                mutations = records;
                generation = elim generation [ some g ↦ g | none ↦ baseline.generation + 1 ];
                status = generated;
                fields = deep_set baseline.fields p;
              })
              else none)
            value_out_of_range)) [
              | true ↦ λ path n. get_field-deep_set baseline.fields p path (h path n)
              | false ↦ tt
            ]

  derive_points-Fits :
      (baseline : SystemGenome V) (g v : ℕ) (ps : List (Fields V))
      → All (IsPermitted policy) ps
      → Returns (All (λ gp. Fits baseline gp.0)) (derive_points fl config env baseline g v ps)
  unfolding derive_points
  derive_points-Fits baseline g v [] h = tt
  derive_points-Fits baseline g v (p ∷ ps) h =
      Returns-bind_any (All (λ gp. Fits baseline gp.0))
        (mutation_records env.same_value config.search_strategy baseline.fields p) _
        λ records.
          Returns-bind (All (λ gp. Fits baseline gp.0)) (Fits baseline)
            (or_raise
              (derive env.hash env.in_range baseline records p v
                (some (baseline.generation + 1 + g)))
              value_out_of_range)
            _ (derive-Fits baseline records p v (some (baseline.generation + 1 + g)) h.0)
            λ child k.
              Returns-bind (All (λ gp. Fits baseline gp.0)) (All (λ gp. Fits baseline gp.0))
                (derive_points fl config env baseline g (v + 1) ps) _
                (derive_points-Fits baseline g (v + 1) ps h.1) λ rest r. (k, r)

  score_candidates-Fits :
      (baseline : SystemGenome V) (base : AggregateMetrics F) (cs : List (Challenge F))
      (gs : List (SystemGenome V × Fields V))
      → All (λ gp. Fits baseline gp.0) gs
      → Returns (All (λ x. Fits baseline x.genome)) (score_candidates fl config env base cs gs)
  unfolding score_candidates score_candidate
  score_candidates-Fits baseline base cs [] h = tt
  score_candidates-Fits baseline base cs ((g, p) ∷ gs) h =
      Returns-bind (All (λ x. Fits baseline x.genome)) (λ x. Fits baseline x.genome)
        (score_candidate fl config env base cs (g, p)) _
        (Returns-bind_any (λ x. Fits baseline x.genome)
          (or_raise
            (aggregate fl (evaluate_candidate fl config env g cs).0 (map (λ c. c.category) cs))
            no_results)
          _ (λ agg. h.0))
        λ x k.
          Returns-bind (All (λ x. Fits baseline x.genome)) (All (λ x. Fits baseline x.genome))
            (score_candidates fl config env base cs gs) _
            (score_candidates-Fits baseline base cs gs h.1) λ xs r. (k, r)

  -- Every candidate that a generation evaluates has the baseline's value in each field that the policy
  -- does not allow to change.
  pub evaluate_points-Fits :
      (baseline : SystemGenome V) (base : AggregateMetrics F) (cs : List (Challenge F)) (g v : ℕ)
      (ps : List (Fields V))
      → Returns
          (All (λ x. Fits baseline x.genome))
          (evaluate_points fl config env baseline base cs g v ps)
  unfolding evaluate_points
  evaluate_points-Fits baseline base cs g v ps =
      Returns-bind (All (λ x. Fits baseline x.genome)) (λ _. All (IsPermitted policy) ps)
        (check_points policy ps) _ (check_points-IsPermitted policy ps)
        λ _ h.
          Returns-bind (All (λ x. Fits baseline x.genome)) (All (λ gp. Fits baseline gp.0))
            (derive_points fl config env baseline g v ps) _ (derive_points-Fits baseline g v ps h)
            λ gs k. score_candidates-Fits baseline base cs gs k
