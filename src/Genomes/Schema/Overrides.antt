-- ===== src/Genomes/Schema/Overrides.antt =====
-- What overrides leave alone (src/neuroforge/genomes/schema.py, `_deep_set`).
use neuro_forge.Base.{String, ◌≡◌, refl, ◌∙◌, false, [], ◌∷◌, List, map, elem, arith, eq_iff, ◌==◌}
use neuro_forge.Genomes.Schema.{Fields, get_field, set_field, deep_set}

module _ {V : Type 0} where
  abbrev pub paths : Fields V → List String
  paths p = map (λ kv. kv.0) p

  get_field-set_field :
      (fs : Fields V) (k path : String) (v : V)
      → (k == path) ≡ false
      → get_field (set_field fs k v) path ≡ get_field fs path
  unfolding get_field set_field
  get_field-set_field [] k path v e = refl
  get_field-set_field ((j, w) ∷ fs) k path v e =
      ground (arith, eq_iff j k, eq_iff j path, eq_iff k path, get_field-set_field fs k path v)

  -- A field that no override names keeps its value.
  pub get_field-deep_set :
      (fs ov : Fields V) (path : String)
      → elem path (paths ov) ≡ false
      → get_field (deep_set fs ov) path ≡ get_field fs path
  unfolding deep_set
  get_field-deep_set fs [] path e = refl
  get_field-deep_set fs ((k, v) ∷ ov) path e =
      get_field-deep_set (set_field fs k v) ov path (ground arith)
      ∙ get_field-set_field fs k path v (ground (arith, eq_iff path k, eq_iff k path))
