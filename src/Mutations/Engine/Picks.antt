-- ===== src/Mutations/Engine/Picks.antt =====
-- What the loop over the chosen operators picks (src/neuroforge/mutations/engine.py).
use neuro_forge.Base.{
  ℕ, ◌≡◌, refl, String, Bool, true, false, ◌&&◌, not, Option, none, some, List, [], ◌∷◌, ◌++◌, map,
  length, elem, elem-append, Distinct, All, All-keep, get_elem?, get_elem?-All, arith, eq_iff,
}
use neuro_forge.Genomes.Schema.{Fields}
use neuro_forge.Mutations.Policy.{MutationPolicy, is_allowed}
use neuro_forge.Mutations.Operators.{Value, MutationProposal}
use neuro_forge.Mutations.Engine.{Rng, Operators, run_operator, usable, pick, picked_or, path_of}

-- An option that the policy allows, for a field that is not touched.
abbrev pub IsUsable : {F : Type 0} → MutationPolicy → List String → MutationProposal F → Type 0
IsUsable policy touched p =
    (is_allowed policy p.field_path && not (elem p.field_path touched)) ≡ true

untouched :
    {F : Type 0} (policy : MutationPolicy) (touched : List String) (path : String)
    (ps : List (MutationProposal F))
    → All (IsUsable policy (touched ++ path ∷ [])) ps
    → (elem path (map path_of ps) ≡ false) × All (IsUsable policy touched) ps
untouched policy touched path [] h = (refl, tt)
untouched policy touched path (q ∷ ps) h = ground (
  arith,
  untouched policy touched path ps h.1,
  elem-append q.field_path touched (path ∷ []),
  eq_iff path q.field_path,
  eq_iff q.field_path path,
)

module _ {F : Type 0} (rng : Rng) (policy : MutationPolicy) (ops : Operators F)
    (show : Value F → String) (hash : String → Fields (Value F) → String)
    (in_range : Fields (Value F) → Bool) where
  abbrev pub picked :
      rng.State → List String → List String → Fields (Value F) → List (MutationProposal F)
  picked r touched names fs = (pick rng policy ops show hash in_range r touched names fs).1

  -- What is picked is usable, and for different fields.
  abbrev pub IsPicked : List String → List (MutationProposal F) → Type 0
  IsPicked touched ps = All (IsUsable policy touched) ps × Distinct (map path_of ps)

  pub pick-IsPicked :
      (r : rng.State) (touched names : List String) (fs : Fields (Value F))
      → IsPicked touched (picked r touched names fs)
  unfolding pick usable run_operator
  pick-IsPicked r touched [] fs = (tt, tt)
  pick-IsPicked r touched (name ∷ names) fs =
      go (get_elem? options drawn.1) refl (pick-IsPicked r touched names fs)
        (λ p. pick-IsPicked drawn.0 (touched ++ p.field_path ∷ []) names fs)
    where
      options : List (MutationProposal F)
      options = usable policy touched (run_operator ops name fs)

      drawn : rng.State × ℕ
      drawn = rng.choice r (length options)

      go :
          (o : Option (MutationProposal F))
          → get_elem? options drawn.1 ≡ o
          → IsPicked touched (picked r touched names fs)
          → ((p : MutationProposal F)
              → IsPicked
                  (touched ++ p.field_path ∷ [])
                  (picked drawn.0 (touched ++ p.field_path ∷ []) names fs))
          → IsPicked touched
              (picked_or rng policy ops show hash in_range o
                (pick rng policy ops show hash in_range r touched names fs)
                (λ p.
                  pick rng policy ops show hash in_range drawn.0
                    (touched ++ p.field_path ∷ [])
                    names
                    fs)).1
      go none e h k = h
      go (some p) e h k =
          let (all, distinct) = k p in
          let (fresh, kept) = untouched policy touched p.field_path _ all in
          let own : IsUsable policy touched p =
            get_elem?-All (IsUsable policy touched) options drawn.1 p
              (All-keep (IsUsable policy touched)
                (λ o. is_allowed policy o.field_path && not (elem o.field_path touched)) (λ x q. q)
                (run_operator ops name fs))
              e in
          ((own, kept), (fresh, distinct))
