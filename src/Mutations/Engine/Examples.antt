-- ===== src/Mutations/Engine/Examples.antt =====
-- One candidate of a genome with three fields, in fixed-point numbers.
use neuro_forge.Base.{ℕ, suc, refl, true, none, some, [], ◌∷◌, All, take, ◌==◌, arith}
use neuro_forge.Base.Int.{ℤ, pos}
use neuro_forge.Base.Float.Fixed.{fixed, fixed-Laws}
use neuro_forge.Genomes.{generated}
use neuro_forge.Genomes.Schema.{Fields, SystemGenome, get_field, set_field, deep_set, derive}
use neuro_forge.Mutations.Policy.{
  default_policy, is_allowed, check_fields, check_combinations, validate_change_set,
}
use neuro_forge.Mutations.Operators.{
  Value, text, number, decimal, Texts, operators, number_at, insert_number, top_k_candidates,
  other_numbers, retrieval_top_k,
}
use neuro_forge.Mutations.Operators.Laws.{
  IsSound, operators-IsSound, IsTopK, retrieval_top_k-IsTopK,
}
use neuro_forge.Mutations.Engine.{
  Rng, run_operator, usable, pick, signature_of, insert_pair, sort_pairs, records_of, seen_before,
  judge, attempt, propose_from, starts_with_any, focused_names, propose,
}
use neuro_forge.Mutations.Engine.Candidates.{AreCandidates, propose-AreCandidates}

abbrev V : Type 0
V = Value ℤ

abbrev plain : Texts
plain = record {
  contains = λ s t. s == t;
  strip = λ s. s;
  rstrip = λ s. s;
  split_lines = λ s. s ∷ [];
  join_lines = λ ls. "";
  add_line = λ s t. t;
}

abbrev fields_with : ℕ → Fields V
fields_with k =
    ("prompt.system_prompt", text "Help.")
    ∷ ("model.temperature", decimal (pos 200000))
    ∷ ("retrieval.top_k", number k)
    ∷ []

abbrev genome : SystemGenome V
genome = record {
  system_id = "forge";
  version = 1;
  parent_hash = none;
  mutations = [];
  generation = 0;
  status = generated;
  fields = fields_with 5;
}

-- The least number, the first names and the first option.
abbrev first : Rng
first = record {
  State = ℕ;
  randint = λ s lo hi. (suc s, lo);
  sample = λ s names k. (suc s, take k names);
  choice = λ s n. (suc s, 0);
}

abbrev child : SystemGenome V
child = record {
  system_id = "forge";
  version = 2;
  parent_hash = some "h";
  mutations =
      record {
        mutation_type = "retrieval.change_top_k";
        field_path = "retrieval.top_k";
        old_value = some (number 5);
        new_value = number 3;
      }
      ∷ [];
  generation = 1;
  status = generated;
  fields = fields_with 3;
}

operators-IsSound_example :
    All (λ op. All (IsSound (fields_with 5)) (op.1 (fields_with 5))) (operators fixed plain)
operators-IsSound_example = operators-IsSound fixed fixed-Laws plain (fields_with 5)

retrieval_top_k-IsTopK_example : All IsTopK (retrieval_top_k fixed plain (fields_with 5))
unfolding number_at get_field
retrieval_top_k-IsTopK_example = retrieval_top_k-IsTopK fixed plain (fields_with 5) (omega arith)

propose-AreCandidates_example :
    AreCandidates first default_policy
      (operators fixed plain)
      (λ v. "")
      (λ s fs. "h")
      (λ fs. true)
      genome
      1
      2
      (child ∷ [])
unfolding propose propose_from attempt judge pick usable run_operator operators retrieval_top_k
    other_numbers number_at get_field top_k_candidates insert_number focused_names starts_with_any
    signature_of sort_pairs insert_pair records_of seen_before derive deep_set set_field
    validate_change_set check_fields check_combinations is_allowed
propose-AreCandidates_example =
    propose-AreCandidates fixed plain first default_policy (λ v. "") (λ s fs. "h") (λ fs. true)
      (λ s t. s == t) genome 1 2 ("retrieval.change_top_k" ∷ []) 0 (child ∷ []) refl
