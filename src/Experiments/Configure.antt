-- ===== src/Experiments/Configure.antt =====
-- Which dimensions an experiment searches (src/neuroforge/experiments/configure.py). The part of a path
-- before its first dot is a parameter.
pub mod Named
use neuro_forge.Base.{
  String, Bool, true, false, not, ◌&&◌, ◌||◌, Option, none, some, List, [], ◌∷◌, ◌++◌, map, keep,
  elem, ◌==◌, if◌then◌else◌, Result, ok, err,
}
use neuro_forge.Promotion.Safety.{is_empty}

-- `ConfigError` of `build_search_space`: the dimensions that are unknown.
pub data ConfigError : Type 0 where
  unknown_dimensions : List String → ConfigError

module _ {Spec : Type 0} (section_of : String → String) where
  abbrev pub paths : List (String × Spec) → List String
  paths space = map (λ p. p.0) space

  -- `groups[item]` of `search_groups`: the paths of a section, none if there is no such section.
  unfoldable pub section_paths : List (String × Spec) → String → List String
  section_paths space item = keep (λ p. section_of p == item) (paths space)

  -- The paths that one item names.
  unfoldable pub named_by : List (String × Spec) → String → List String
  named_by space item =
      let members = section_paths space item in
      if not (is_empty members) then members else if elem item (paths space) then item ∷ [] else []

  unfoldable pub chosen_paths : List (String × Spec) → List String → List String
  chosen_paths space [] = []
  chosen_paths space (item ∷ items) = named_by space item ++ chosen_paths space items

  unfoldable pub unknown_items : List (String × Spec) → List String → List String
  unknown_items space items = keep (λ item. is_empty (named_by space item)) items

  unfoldable pub build_search_space :
      List (String × Spec) → List String → Result ConfigError (List (String × Spec))
  build_search_space space dimensions =
      if is_empty dimensions
      then ok space
      else if not (is_empty (unknown_items space dimensions))
      then err (unknown_dimensions (unknown_items space dimensions))
      else ok (keep (λ (path, _). elem path (chosen_paths space dimensions)) space)
