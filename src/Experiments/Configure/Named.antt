-- ===== src/Experiments/Configure/Named.antt =====
-- Which dimensions are searched (src/neuroforge/experiments/configure.py).
use neuro_forge.Base.{
  String, Bool, true, false, not, ◌&&◌, ◌||◌, List, [], ◌∷◌, keep, map, elem, elem-append, ◌==◌,
  ==_refl, if◌then◌else◌, ok, err, ◌≡◌, refl, ap, arith, eq_iff,
}
use neuro_forge.Promotion.Safety.{is_empty}
use neuro_forge.Experiments.Configure.{
  unknown_dimensions, paths, section_paths, named_by, chosen_paths, unknown_items,
  build_search_space,
}

elem-keep :
    (k : String) (p : String → Bool) (xs : List String) → elem k (keep p xs) ≡ (elem k xs && p k)
elem-keep k p [] = refl
elem-keep k p (x ∷ xs) = ground (arith, elem-keep k p xs, eq_iff k x)

elem_empty : (k : String) (xs : List String) → is_empty xs ≡ true → elem k xs ≡ false
elem_empty k [] e = refl
elem_empty k (x ∷ xs) e = cc

module _ {Spec : Type 0} (section_of : String → String) (space : List (String × Spec)) where
  abbrev pub is_section : String → Bool
  is_section item = elem item (map (λ (path, _). section_of path) space)

  abbrev pub is_path : String → Bool
  is_path item = elem item (map (λ (path, _). path) space)

  -- An item names a path as its section, or, if it is no section, as itself.
  abbrev pub names : String → String → Bool
  names item path = section_of path == item || (not (is_section item) && path == item)

  -- The items that are neither a section nor a path.
  abbrev pub strangers : List String → List String
  strangers items = keep (λ item. not (is_section item || is_path item)) items

  no_section :
      (item : String) (xs : List (String × Spec))
      → is_empty (keep (λ p. section_of p == item) (map (λ p. p.0) xs))
        ≡ not (elem item (map (λ (path, _). section_of path) xs))
  no_section item [] = refl
  no_section item ((path, spec) ∷ xs) =
      ground
        (arith, no_section item xs, eq_iff (section_of path) item, eq_iff item (section_of path))

  named_by-is_empty :
      (item : String)
      → is_empty (named_by section_of space item) ≡ not (is_section item || is_path item)
  unfolding named_by section_paths
  named_by-is_empty item = ground (arith, no_section item space)

  unknown-strangers : (items : List String) → unknown_items section_of space items ≡ strangers items
  unfolding unknown_items
  unknown-strangers [] = refl
  unknown-strangers (item ∷ items) = ground (arith, named_by-is_empty item, unknown-strangers items)

  abbrev pub is_named : List String → String → Bool
  is_named [] path = false
  is_named (item ∷ items) path = names item path || is_named items path

  elem-named_by :
      (item path : String)
      → elem path (paths section_of space) ≡ true
      → elem path (named_by section_of space item) ≡ names item path
  unfolding named_by section_paths
  elem-named_by item path h =
      by_section (section_paths section_of space item) (no_section item space)
        (elem-keep path (λ p. section_of p == item) (paths section_of space))
    where
      by_section :
          (members : List String)
          → is_empty members ≡ not (is_section item)
          → elem path members ≡ (elem path (paths section_of space) && section_of path == item)
          → elem path (
              if not (is_empty members)
              then members
              else if elem item (paths section_of space)
              then item ∷ []
              else [])
            ≡ names item path
      by_section [] q e = ground (arith, h, q, e, eq_iff path item)
      by_section (m ∷ members) q e = ground (arith, h, q, e)

  elem-chosen_paths :
      (items : List String) (path : String)
      → elem path (paths section_of space) ≡ true
      → elem path (chosen_paths section_of space items) ≡ is_named items path
  unfolding chosen_paths
  elem-chosen_paths [] path h = refl
  elem-chosen_paths (item ∷ items) path h = ground (
    arith,
    elem-append path (named_by section_of space item) (chosen_paths section_of space items),
    elem-named_by item path h,
    elem-chosen_paths items path h,
  )

  -- Two tests that agree on the paths of a space keep the same of it.
  keep_agree :
      (p q : String → Bool) (xs : List (String × Spec))
      → ((path : String) → elem path (paths section_of xs) ≡ true → p path ≡ q path)
      → keep (λ (path, _). p path) xs ≡ keep (λ (path, _). q path) xs
  keep_agree p q [] h = refl
  keep_agree p q ((path, spec) ∷ xs) h =
      let rest = keep_agree p q xs (λ k e. h k (ground (arith, e))) in
      ground (arith, rest, h path (ground (arith, ==_refl path)))

  -- Without dimensions the whole space is searched. Otherwise each must be a section or a path of the
  -- space, and the error lists those that are neither; what they name, as a section or, where they are
  -- no section, as a path, is searched, in the order of the space.
  pub build_search_space_named :
      (items : List String)
      → build_search_space section_of space items ≡ (
          if is_empty items
          then ok space
          else if is_empty (strangers items)
          then ok (keep (λ (path, _). is_named items path) space)
          else err (unknown_dimensions (strangers items)))
  unfolding build_search_space
  build_search_space_named [] = refl
  build_search_space_named (item ∷ items) =
      rw (unknown-strangers (item ∷ items)) (by_unknown (is_empty (strangers (item ∷ items))))
    where
      by_unknown :
          (b : Bool)
          → (if not b
              then err (unknown_dimensions (strangers (item ∷ items)))
              else ok (
                  keep
                    (λ (path, _). elem path (chosen_paths section_of space (item ∷ items)))
                    space))
            ≡ (if b
                then ok (keep (λ (path, _). is_named (item ∷ items) path) space)
                else err (unknown_dimensions (strangers (item ∷ items))))
      by_unknown true = ap ok (
          keep_agree (λ path. elem path (chosen_paths section_of space (item ∷ items)))
            (is_named (item ∷ items)) space (λ path h. elem-chosen_paths (item ∷ items) path h))
      by_unknown false = refl
