-- ===== src/Mutations/Policy/Examples.antt =====
-- A policy and two changes.
use neuro_forge.Base.{◌≡◌, ◌↔◌, true, [], ◌∷◌}
use neuro_forge.Mutations.Policy.{MutationPolicy, validate_change_set}
use neuro_forge.Mutations.Policy.Verdict.{IsCompliant, validate-iff-IsCompliant}

abbrev policy : MutationPolicy
policy = record {
  max_changes_per_candidate = 2;
  allowed = "retrieval.top_k" ∷ "model.temperature" ∷ [];
  forbidden = "system_id" ∷ [];
  forbidden_combinations = [];
}

validate-iff-IsCompliant_example :
    ((validate_change_set policy ("model.temperature" ∷ "retrieval.top_k" ∷ [])).0 ≡ true)
    ↔ IsCompliant policy ("model.temperature" ∷ "retrieval.top_k" ∷ [])
validate-iff-IsCompliant_example =
    validate-iff-IsCompliant policy ("model.temperature" ∷ "retrieval.top_k" ∷ [])
