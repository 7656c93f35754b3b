-- ===== src/Mutations/Policy.antt =====
-- The mutation policy (src/neuroforge/mutations/policy.py).
pub mod Verdict
pub mod Examples
use neuro_forge.Base.{
  ℕ, String, Bool, true, false, not, ◌&&◌, List, [], ◌∷◌, length, elem, ltb, if◌then◌else◌,
}

pub record MutationPolicy : Type 0 where
  pub max_changes_per_candidate : ℕ
  pub allowed : List String
  pub forbidden : List String
  pub forbidden_combinations : List (String × String)

-- The reason that goes with the verdict, with what its text shows.
pub data PolicyReason : Type 0 where
  fine : PolicyReason
  too_many_fields : ℕ → ℕ → PolicyReason
  not_permitted : String → PolicyReason
  combination_forbidden : String → String → PolicyReason

unfoldable pub is_allowed : MutationPolicy → String → Bool
is_allowed policy field_path =
    if elem field_path policy.forbidden then false else elem field_path policy.allowed

unfoldable pub check_fields : MutationPolicy → List String → Bool × PolicyReason
check_fields policy [] = (true, fine)
check_fields policy (f ∷ fs) =
    let rest = check_fields policy fs in
    if not (is_allowed policy f) then (false, not_permitted f) else rest

unfoldable pub check_combinations : List (String × String) → List String → Bool × PolicyReason
check_combinations [] field_paths = (true, fine)
check_combinations ((a, b) ∷ cs) field_paths =
    let rest = check_combinations cs field_paths in
    if elem a field_paths && elem b field_paths then (false, combination_forbidden a b) else rest

unfoldable pub validate_change_set : MutationPolicy → List String → Bool × PolicyReason
validate_change_set policy field_paths =
    let limit = policy.max_changes_per_candidate in
    let fields = check_fields policy field_paths in
    if ltb limit (length field_paths)
    then (false, too_many_fields (length field_paths) limit)
    else if not fields.0
    then fields
    else check_combinations policy.forbidden_combinations field_paths

abbrev pub default_allowed_fields : List String
default_allowed_fields =
    "prompt.system_prompt" ∷ "prompt.strategy" ∷ "prompt.include_examples"
    ∷ "prompt.max_instructions" ∷ "model.name" ∷ "model.temperature" ∷ "model.max_tokens"
    ∷ "model.reasoning_effort" ∷ "retrieval.chunk_size" ∷ "retrieval.chunk_overlap"
    ∷ "retrieval.top_k" ∷ "retrieval.reranker" ∷ "retrieval.query_transform" ∷ "tools.enabled"
    ∷ "tools.selection_policy" ∷ "tools.max_tool_calls" ∷ "context.compression"
    ∷ "context.deduplicate" ∷ "context.ordering" ∷ "agent.planning_strategy"
    ∷ "agent.max_iterations" ∷ "agent.stopping_criteria" ∷ "output.format" ∷ []

-- `MutationPolicy()`
abbrev pub default_policy : MutationPolicy
default_policy = record {
  max_changes_per_candidate = 3;
  allowed = default_allowed_fields;
  forbidden = "system_id" ∷ "security_policy" ∷ "authentication" ∷ [];
  forbidden_combinations = ("model.temperature", "output.format") ∷ [];
}
