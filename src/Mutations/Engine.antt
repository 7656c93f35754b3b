-- ===== src/Mutations/Engine.antt =====
-- The proposal of candidates (src/neuroforge/mutations/engine.py). Python's random generator, `str` and
-- `startswith` are parameters, and so are the content hash and the ranges of a genome.
pub mod Picks
pub mod Candidates
pub mod Examples
use Prim.Native.String.{compare}
use text.Mathlib.Text.{is_lt}
use neuro_forge.Base.{
  ℕ, zero, suc, ◌+◌, ◌*◌, min, String, Bool, true, false, not, ◌&&◌, ◌||◌, Option, none, some, List,
  [], ◌∷◌, ◌++◌, map, keep, length, elem, get_elem?, leb, ◌==◌, if◌then◌else◌,
}
use neuro_forge.Base.Float.{Floats}
use neuro_forge.Promotion.Safety.{is_empty}
use neuro_forge.Genomes.Schema.{Fields, SystemGenome, MutationRecord, get_field, derive}
use neuro_forge.Mutations.Policy.{MutationPolicy, is_allowed, validate_change_set}
use neuro_forge.Mutations.Operators.{Value, MutationProposal, Texts, operators}

-- `random.Random`: `choice` of a sequence is drawn as an index below its length.
pub record Rng : Type 1 where
  pub State : Type 0
  pub randint : State → ℕ → ℕ → State × ℕ
  pub sample : State → List String → ℕ → State × List String
  pub choice : State → ℕ → State × ℕ

-- The pairs of path and value by which a change set is recognised.
abbrev pub Signature : Type 0
Signature = List (String × String)

unfoldable pub pair_lt : String × String → String × String → Bool
pair_lt (a, v) (b, w) = is_lt (compare a b) || (a == b && is_lt (compare v w))

unfoldable pub insert_pair : String × String → Signature → Signature
insert_pair p [] = p ∷ []
insert_pair p (q ∷ qs) = let rest = insert_pair p qs in if pair_lt q p then q ∷ rest else p ∷ q ∷ qs

unfoldable pub sort_pairs : Signature → Signature
sort_pairs [] = []
sort_pairs (p ∷ ps) = insert_pair p (sort_pairs ps)

unfoldable pub same_signature : Signature → Signature → Bool
same_signature [] [] = true
same_signature ((a, v) ∷ s) ((b, w) ∷ t) = a == b && (v == w && same_signature s t)
same_signature _ _ = false

unfoldable pub seen_before : Signature → List Signature → Bool
seen_before s [] = false
seen_before s (t ∷ ts) = same_signature s t || seen_before s ts

pub data Attempt (R G : Type 0) : Type 0 where
  skip : R → Attempt R G
  accept : R → Signature → G → Attempt R G
  fail : Attempt R G

-- `OPERATORS`: the operators under their names.
abbrev pub Operators : Type 0 → Type 0
Operators F = List (String × (Fields (Value F) → List (MutationProposal F)))

module _ {F : Type 0} where
  unfoldable pub run_operator : Operators F → String → Fields (Value F) → List (MutationProposal F)
  run_operator [] name fs = []
  run_operator ((n, op) ∷ ops) name fs =
      let rest = run_operator ops name fs in if n == name then op fs else rest

  abbrev pub path_of : MutationProposal F → String
  path_of p = p.field_path

  -- The options of an operator that the policy allows, for a field that is not touched yet.
  unfoldable pub usable :
      MutationPolicy → List String → List (MutationProposal F) → List (MutationProposal F)
  usable policy touched options =
      keep (λ o. is_allowed policy o.field_path && not (elem o.field_path touched)) options

  unfoldable pub signature_of : (Value F → String) → (List (MutationProposal F)) → Signature
  signature_of show ps = sort_pairs (map (λ p. (p.field_path, show p.new_value)) ps)

  unfoldable pub records_of :
      Fields (Value F) → (List (MutationProposal F)) → List (MutationRecord (Value F))
  records_of fs ps =
      map
        (λ p. record {
          mutation_type = p.mutation_type;
          field_path = p.field_path;
          old_value = get_field fs p.field_path;
          new_value = p.new_value;
        })
        ps

  abbrev pub overrides_of : (List (MutationProposal F)) → Fields (Value F)
  overrides_of ps = map (λ p. (p.field_path, p.new_value)) ps

module _ {F : Type 0} (rng : Rng) (policy : MutationPolicy) (ops : Operators F)
    (show : Value F → String) (hash : String → Fields (Value F) → String)
    (in_range : Fields (Value F) → Bool) where
  -- `if options:` with what is drawn from them.
  abbrev pub picked_or :
      Option (MutationProposal F)
      → rng.State × List (MutationProposal F)
      → (MutationProposal F → rng.State × List (MutationProposal F))
      → rng.State × List (MutationProposal F)
  picked_or none without more = without
  picked_or (some p) without more = ((more p).0, p ∷ (more p).1)

  abbrev pub Genome : Type 0
  Genome = SystemGenome (Value F)

  -- The loop over the chosen operators.
  unfoldable pub pick :
      rng.State
      → List String
      → List String
      → Fields (Value F)
      → rng.State × List (MutationProposal F)
  pick r touched [] fs = (r, [])
  pick r touched (name ∷ names) fs =
      let options = usable policy touched (run_operator ops name fs) in
      let drawn = rng.choice r (length options) in
      picked_or (get_elem? options drawn.1) (pick r touched names fs)
        (λ p. pick drawn.0 (touched ++ p.field_path ∷ []) names fs)

  -- What becomes of the proposals of one round.
  unfoldable pub judge :
      Genome → ℕ → List Signature → rng.State → List (MutationProposal F) → Attempt rng.State Genome
  judge genome version seen r ps =
      if is_empty ps
      then skip r
      else if not (validate_change_set policy (map path_of ps)).0
      then skip r
      else if seen_before (signature_of show ps) seen
      then skip r
      else elim (derive hash in_range genome (records_of genome.fields ps) (overrides_of ps) version
          none) [ none ↦ fail | some child ↦ accept r (signature_of show ps) child ]

  -- One round of the `while` loop.
  unfoldable pub attempt :
      Genome → List String → ℕ → List Signature → rng.State → Attempt rng.State Genome
  attempt genome op_names version seen r =
      let (r1, n_changes) = rng.randint r 1 policy.max_changes_per_candidate in
      let (r2, chosen) = rng.sample r1 op_names (min n_changes (length op_names)) in
      let (r3, ps) = pick r2 [] chosen genome.fields in judge genome version seen r3 ps

  -- The rounds that are left; `none` is the error of pydantic on a value out of range.
  unfoldable pub propose_from :
      Genome
      → List String
      → ℕ
      → ℕ
      → ℕ
      → List Signature
      → rng.State
      → List Genome
      → Option (List Genome)
  propose_from genome op_names n start zero seen r found = some found
  propose_from genome op_names n start (suc rounds) seen r found =
      let rest : Option (List Genome) =
        elim (attempt genome op_names (start + length found) seen r) [
          | fail ↦ none
          | skip r' ↦ propose_from genome op_names n start rounds seen r' found
          | accept r' s child ↦
              propose_from genome op_names n start rounds (s ∷ seen) r' (found ++ child ∷ [])
        ] in
      if leb n (length found) then some found else rest

unfoldable pub starts_with_any : (String → String → Bool) → List String → String → Bool
starts_with_any starts_with [] name = false
starts_with_any starts_with (c ∷ cs) name =
    starts_with name c || starts_with_any starts_with cs name

-- The operators of the categories in focus, or all of them if there is none.
unfoldable pub focused_names : (String → String → Bool) → List String → List String → List String
focused_names starts_with focus names =
    let focused = keep (starts_with_any starts_with focus) names in
    if is_empty focus then names else if is_empty focused then names else focused

-- `MutationEngine.propose`
unfoldable pub propose :
    (fl : Floats)
    → Texts
    → (rng : Rng) → MutationPolicy
    → (Value fl.F → String)
    → (String → Fields (Value fl.F) → String)
    → (Fields (Value fl.F) → Bool)
    → (String → String → Bool)
    → SystemGenome (Value fl.F)
    → ℕ
    → ℕ
    → List String
    → rng.State
    → Option (List (SystemGenome (Value fl.F)))
propose fl py rng policy show hash in_range starts_with genome n start focus r =
    propose_from rng policy (operators fl py) show hash in_range genome
      (focused_names starts_with focus (map (λ op. op.0) (operators fl py))) n start (n * 20 + 20)
      [] r []
