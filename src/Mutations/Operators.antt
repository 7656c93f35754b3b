-- ===== src/Mutations/Operators.antt =====
-- The mutation operators (src/neuroforge/mutations/operators.py). What Python's texts do (`in`, `strip`,
-- `rstrip`, `split("\n")` and its join) is a parameter; the reasons of a proposal, which only report, are
-- left out.
pub mod Laws
use neuro_forge.Base.{
  ℕ, ◌+◌, ◌-◌, ◌/◌, min, max, String, Bool, true, false, not, ◌||◌, Option, none, some, List, [],
  ◌∷◌, map, keep, take, length, leb as nat_leb, nat_eq, ltb as nat_ltb, ◌==◌, if◌then◌else◌,
}
use neuro_forge.Base.Float
use neuro_forge.Base.Float.{Floats}
use neuro_forge.Genomes.Schema.{Fields, get_field}

-- The values that the fields of a genome take.
pub data Value (F : Type 0) : Type 0 where
  text : String → Value F
  number : ℕ → Value F
  flag : Bool → Value F
  decimal : F → Value F
  texts : List String → Value F

pub record MutationProposal (F : Type 0) : Type 0 where
  pub field_path : String
  pub mutation_type : String
  pub new_value : Value F

pub record Texts : Type 0 where
  pub contains : String → String → Bool
  pub strip : String → String
  pub rstrip : String → String
  pub split_lines : String → List String
  pub join_lines : List String → String
  pub add_line : String → String → String

-- A field that is there has the type that pydantic gave it.
module _ {F : Type 0} where
  unfoldable pub text_at : Fields (Value F) → String → String
  text_at fs path = elim (get_field fs path) [ some (text t) ↦ t | _ ↦ "" ]

  unfoldable pub number_at : Fields (Value F) → String → ℕ
  number_at fs path = elim (get_field fs path) [ some (number n) ↦ n | _ ↦ 0 ]

  unfoldable pub flag_at : Fields (Value F) → String → Bool
  flag_at fs path = elim (get_field fs path) [ some (flag b) ↦ b | _ ↦ false ]

  abbrev pub propose_value : String → String → Value F → MutationProposal F
  propose_value path kind v = record { field_path = path; mutation_type = kind; new_value = v }

  -- `[... for opt in options if opt != current]`, on texts and on numbers.
  unfoldable pub other_texts :
      String → String → List String → Fields (Value F) → List (MutationProposal F)
  other_texts path kind options fs =
      map (λ o. propose_value path kind (text o)) (keep (λ o. not (o == text_at fs path)) options)

  unfoldable pub other_numbers :
      String → String → List ℕ → Fields (Value F) → List (MutationProposal F)
  other_numbers path kind options fs =
      map (λ n. propose_value path kind (number n))
        (keep (λ n. not (nat_eq n (number_at fs path))) options)

  unfoldable pub toggle : String → String → Fields (Value F) → List (MutationProposal F)
  toggle path kind fs = propose_value path kind (flag (not (flag_at fs path))) ∷ []

abbrev pub constraint_library : List String
constraint_library =
    "Never promise a refund without verifying the order ID against the order lookup tool."
    ∷ "If policy and the customer's claim conflict, defer to policy and explain why."
    ∷ "Always state the specific policy clause used to justify a decision."
    ∷ "When information is missing, ask a clarifying question instead of guessing." ∷ []

-- A set of numbers in order.
unfoldable pub insert_number : ℕ → List ℕ → List ℕ
insert_number n [] = n ∷ []
insert_number n (m ∷ ms) =
    let rest = insert_number n ms in
    if nat_eq n m then m ∷ ms else if nat_ltb n m then n ∷ m ∷ ms else m ∷ rest

unfoldable pub top_k_candidates : ℕ → List ℕ
unfolding insert_number
top_k_candidates current =
    insert_number (max 1 (current - 2))
      (insert_number (min 50 (current + 2)) (insert_number (min 50 (current + 4)) []))

module _ (fl : Floats) (py : Texts) where
  open fl use {F, dec, add, sub, ltb, round_to}

  abbrev pub G : Type 0
  G = Fields (Value F)

  unfoldable pub decimal_at : G → String → F
  decimal_at fs path = elim (get_field fs path) [ some (decimal x) ↦ x | _ ↦ Float.f_zero fl ]

  unfoldable pub prompt_add_constraint : G → List (MutationProposal F)
  prompt_add_constraint fs =
      let existing = text_at fs "prompt.system_prompt" in
      take 2 (
        map
          (λ c.
            propose_value "prompt.system_prompt" "prompt.add_constraint"
              (text (py.strip (py.add_line (py.rstrip existing) c))))
          (keep (λ c. not (py.contains existing c)) constraint_library))

  unfoldable pub prompt_simplify : G → List (MutationProposal F)
  prompt_simplify fs =
      let lines =
        keep (λ l. not (py.strip l == "")) (py.split_lines (text_at fs "prompt.system_prompt")) in
      if nat_leb (length lines) 2
      then []
      else propose_value "prompt.system_prompt" "prompt.simplify"
          (text (py.join_lines (take (max 2 (length lines / 2)) lines)))
        ∷ []

  unfoldable pub prompt_strategy : G → List (MutationProposal F)
  prompt_strategy fs =
      other_texts "prompt.strategy" "prompt.change_strategy"
        ("direct" ∷ "structured_reasoning" ∷ "chain_of_thought" ∷ "few_shot" ∷ "constrained" ∷ [])
        fs

  unfoldable pub prompt_examples : G → List (MutationProposal F)
  prompt_examples fs = toggle "prompt.include_examples" "prompt.toggle_examples" fs

  -- `c != current`
  abbrev pub unequal : F → F → Bool
  unequal a b = ltb a b || ltb b a

  -- `sorted({a, b})`
  unfoldable pub sorted_pair : F → F → List F
  sorted_pair a b = if ltb a b then a ∷ b ∷ [] else if ltb b a then b ∷ a ∷ [] else a ∷ []

  unfoldable pub model_temperature : G → List (MutationProposal F)
  model_temperature fs =
      let current = decimal_at fs "model.temperature" in
      map (λ c. propose_value "model.temperature" "model.change_temperature" (decimal c))
        (keep (λ c. unequal c current)
          (sorted_pair (round_to 2 (Float.max fl (Float.f_zero fl) (sub current (dec 15 2))))
            (round_to 2 (Float.min fl (Float.f_one fl) (add current (dec 15 2))))))

  unfoldable pub model_name : G → List (MutationProposal F)
  model_name fs =
      other_texts "model.name" "model.switch_model"
        ("reasoning-small" ∷ "reasoning-large" ∷ "fast-cheap" ∷ []) fs

  unfoldable pub retrieval_top_k : G → List (MutationProposal F)
  retrieval_top_k fs =
      other_numbers "retrieval.top_k" "retrieval.change_top_k"
        (top_k_candidates (number_at fs "retrieval.top_k")) fs

  unfoldable pub retrieval_chunking : G → List (MutationProposal F)
  retrieval_chunking fs =
      other_numbers "retrieval.chunk_size" "retrieval.change_chunk_size"
        (400 ∷ 600 ∷ 800 ∷ 1000 ∷ []) fs

  unfoldable pub retrieval_reranker : G → List (MutationProposal F)
  retrieval_reranker fs =
      other_texts "retrieval.reranker" "retrieval.change_reranker"
        ("none" ∷ "cross_encoder" ∷ "mmr" ∷ []) fs

  unfoldable pub tools_policy : G → List (MutationProposal F)
  tools_policy fs =
      other_texts "tools.selection_policy" "tools.change_selection_policy"
        ("greedy" ∷ "risk_aware" ∷ "conservative" ∷ []) fs

  unfoldable pub context_ordering : G → List (MutationProposal F)
  context_ordering fs =
      other_texts "context.ordering" "context.change_ordering"
        ("relevance" ∷ "recency" ∷ "source_priority" ∷ []) fs

  unfoldable pub context_dedup : G → List (MutationProposal F)
  context_dedup fs = toggle "context.deduplicate" "context.toggle_dedup" fs

  unfoldable pub agent_planning : G → List (MutationProposal F)
  agent_planning fs =
      other_texts "agent.planning_strategy" "agent.change_planning_strategy"
        ("single_shot" ∷ "react" ∷ "plan_and_execute" ∷ []) fs

  -- `OPERATORS`, in its order.
  unfoldable pub operators : List (String × (G → List (MutationProposal F)))
  operators =
      ("prompt.add_constraint", prompt_add_constraint)
      ∷ ("prompt.simplify", prompt_simplify)
      ∷ ("prompt.change_strategy", prompt_strategy)
      ∷ ("prompt.toggle_examples", prompt_examples)
      ∷ ("model.change_temperature", model_temperature)
      ∷ ("model.switch_model", model_name)
      ∷ ("retrieval.change_top_k", retrieval_top_k)
      ∷ ("retrieval.change_chunk_size", retrieval_chunking)
      ∷ ("retrieval.change_reranker", retrieval_reranker)
      ∷ ("tools.change_selection_policy", tools_policy)
      ∷ ("context.change_ordering", context_ordering)
      ∷ ("context.toggle_dedup", context_dedup)
      ∷ ("agent.change_planning_strategy", agent_planning)
      ∷ []
