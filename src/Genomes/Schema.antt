-- ===== src/Genomes/Schema.antt =====
-- A genome and its children (src/neuroforge/genomes/schema.py). The configuration is its fields under
-- their dotted paths, in place of nested models; a value is of any type. The content hash (SHA-256 of
-- the configuration as JSON) and the ranges that pydantic checks are parameters.
pub mod Overrides
use neuro_forge.Base.{ℕ, ◌+◌, String, Bool, Option, none, some, List, [], ◌∷◌, ◌==◌, if◌then◌else◌}
use neuro_forge.Genomes.{PromotionStatus, generated}

-- A dict from dotted paths, in insertion order.
abbrev pub Fields : Type 0 → Type 0
Fields V = List (String × V)

pub record MutationRecord (V : Type 0) : Type 0 where
  pub mutation_type : String
  pub field_path : String
  pub old_value : Option V
  pub new_value : V

pub record SystemGenome (V : Type 0) : Type 0 where
  pub system_id : String
  pub version : ℕ
  pub parent_hash : Option String
  pub mutations : List (MutationRecord V)
  pub generation : ℕ
  pub status : PromotionStatus
  pub fields : Fields V

module _ {V : Type 0} where
  unfoldable pub get_field : Fields V → String → Option V
  get_field [] path = none
  get_field ((k, v) ∷ fs) path = let rest = get_field fs path in if k == path then some v else rest

  -- A path that names a field replaces its value; pydantic ignores one that names none
  -- (`get_field_by_path` raises on it before, in both callers).
  unfoldable pub set_field : Fields V → String → V → Fields V
  set_field [] path value = []
  set_field ((k, v) ∷ fs) path value =
      let rest = set_field fs path value in if k == path then (k, value) ∷ fs else (k, v) ∷ rest

  -- `_deep_set`
  unfoldable pub deep_set : Fields V → Fields V → Fields V
  deep_set fs [] = fs
  deep_set fs ((path, value) ∷ overrides) = deep_set (set_field fs path value) overrides

  module _ (hash : String → Fields V → String) (in_range : Fields V → Bool) where
    -- `none` is the error of pydantic on a value out of range.
    unfoldable pub derive :
        SystemGenome V → List (MutationRecord V) → Fields V → ℕ → Option ℕ → Option (SystemGenome V)
    derive genome mutations overrides new_version generation =
        let fields = deep_set genome.fields overrides in
        let child : SystemGenome V = record {
          system_id = genome.system_id;
          version = new_version;
          parent_hash = some (hash genome.system_id genome.fields);
          mutations = mutations;
          generation = elim generation [ some g ↦ g | none ↦ genome.generation + 1 ];
          status = generated;
          fields = fields;
        } in
        if in_range fields then some child else none
