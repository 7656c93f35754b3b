-- ===== src/Mutations/Engine/Candidates.antt =====
-- What `propose` gives (src/neuroforge/mutations/engine.py): small changes of the genome that the policy
-- accepts, one for a field, under consecutive version numbers.
use neuro_forge.Base.{
  ℕ, zero, suc, ◌+◌, ◌*◌, min, ◌≤◌, ◌≡◌, refl, sym, subst, ap, ◌∙◌, String, Bool, true, false, not,
  Option, none, some, List, [], ◌∷◌, ◌++◌, map, length, length-append, elem, Distinct, All,
  All-append, leb, arith, eq_iff, ◌==◌, Bool-cases, inl, inr, if◌then◌else◌,
}
use neuro_forge.Promotion.Safety.{is_empty}
use neuro_forge.Base.Float.{Floats}
use neuro_forge.Genomes.{generated}
use neuro_forge.Genomes.Schema.{Fields, SystemGenome, get_field, deep_set, derive}
use neuro_forge.Genomes.Schema.Overrides.{paths, get_field-deep_set}
use neuro_forge.Mutations.Policy.{MutationPolicy, is_allowed, validate_change_set}
use neuro_forge.Mutations.Policy.Verdict.{validate-iff-IsCompliant}
use neuro_forge.Mutations.Operators.{Value, MutationProposal, Texts, operators}
use neuro_forge.Mutations.Engine.{
  Rng, Operators, Signature, Attempt, skip, accept, fail, path_of, signature_of, records_of,
  overrides_of, seen_before, judge, attempt, propose_from, propose, focused_names,
}
use neuro_forge.Mutations.Engine.Picks.{picked, pick-IsPicked}

map-records_of :
    {F : Type 0} (fs : Fields (Value F)) (ps : List (MutationProposal F))
    → map (λ m. m.field_path) (records_of fs ps) ≡ map path_of ps
unfolding records_of
map-records_of fs [] = refl
map-records_of fs (p ∷ ps) = ap (λ xs. p.field_path ∷ xs) (map-records_of fs ps)

paths-overrides_of :
    {F : Type 0} (ps : List (MutationProposal F)) → paths (overrides_of ps) ≡ map path_of ps
paths-overrides_of [] = refl
paths-overrides_of (p ∷ ps) = ap (λ xs. p.field_path ∷ xs) (paths-overrides_of ps)

module _ (policy : MutationPolicy) where
  absent :
      (path : String) (fs : List String)
      → is_allowed policy path ≡ false
      → All (λ f. elem f policy.forbidden ≡ false) fs
      → All (λ f. elem f policy.allowed ≡ true) fs
      → elem path fs ≡ false
  unfolding is_allowed
  absent path [] h p q = refl
  absent path (f ∷ fs) h p q = elim (Bool-cases (path == f)) [
    | inl same ↦
        let e : is_allowed policy f ≡ false =
          subst (λ x. is_allowed policy x ≡ false) ((eq_iff path f).0 same) h in
        ground arith
    | inr other ↦ ground (arith, absent path fs h p.1 q.1)
  ]

-- Consecutive numbers from `start`.
abbrev pub Numbered : {V : Type 0} → ℕ → List (SystemGenome V) → Type 0
Numbered start [] = Unit
Numbered start (g ∷ gs) = (g.version ≡ start) × Numbered (start + 1) gs

Numbered-append :
    {V : Type 0} (start : ℕ) (gs : List (SystemGenome V)) (g : SystemGenome V)
    → Numbered start gs
    → g.version ≡ start + length gs
    → Numbered start (gs ++ g ∷ [])
Numbered-append start [] g h e = (omega arith, tt)
Numbered-append start (x ∷ gs) g h e = (h.0, Numbered-append (start + 1) gs g h.1 (omega arith))

module _ {F : Type 0} (rng : Rng) (policy : MutationPolicy) (ops : Operators F)
    (show : Value F → String) (hash : String → Fields (Value F) → String)
    (in_range : Fields (Value F) → Bool) (genome : SystemGenome (Value F)) where
  abbrev G : Type 0
  G = SystemGenome (Value F)

  abbrev changed : G → List String
  changed c = map (λ m. m.field_path) c.mutations

  -- A child of the genome by a change set that the policy accepts, one change for a field.
  pub record IsCandidate (c : G) : Type 0 where
    pub compliant : (validate_change_set policy (map (λ m. m.field_path) c.mutations)).0 ≡ true
    pub once : Distinct (map (λ m. m.field_path) c.mutations)
    pub child : c.parent_hash ≡ some (hash genome.system_id genome.fields)
    pub others_kept :
        (path : String)
        → is_allowed policy path ≡ false
        → get_field c.fields path ≡ get_field genome.fields path

  abbrev Accepted : (G → Type 0) → Attempt rng.State G → Type 0
  Accepted P (skip r) = Unit
  Accepted P (accept r s c) = P c
  Accepted P fail = Unit

  if-Accepted :
      (P : G → Type 0) (b : Bool) (r : rng.State) (x : Attempt rng.State G)
      → (b ≡ false → Accepted P x)
      → Accepted P (if b then skip r else x)
  if-Accepted P true r x h = tt
  if-Accepted P false r x h = h refl

  abbrev IsNext : ℕ → G → Type 0
  IsNext version c = IsCandidate c × (c.version ≡ version)

  judge-IsNext :
      (version : ℕ) (seen : List Signature) (r : rng.State) (ps : List (MutationProposal F))
      → Distinct (map path_of ps)
      → Accepted (IsNext version) (judge rng policy ops show hash in_range genome version seen r ps)
  unfolding judge derive
  judge-IsNext version seen r ps d = if-Accepted (IsNext version) (is_empty ps) r _ λ _.
      if-Accepted (IsNext version) (not (validate_change_set policy (map path_of ps)).0) r _ λ fine.
        if-Accepted (IsNext version) (seen_before (signature_of show ps) seen) r _
          λ _. derived (in_range (deep_set genome.fields (overrides_of ps))) (ground arith)
    where
      child : G
      child = record {
        system_id = genome.system_id;
        version = version;
        parent_hash = some (hash genome.system_id genome.fields);
        mutations = records_of genome.fields ps;
        generation = genome.generation + 1;
        status = generated;
        fields = deep_set genome.fields (overrides_of ps);
      }

      derived :
          (b : Bool)
          → (validate_change_set policy (map path_of ps)).0 ≡ true
          → Accepted (IsNext version) (elim (if b then some child else none) [
            | none ↦ fail
            | some c ↦ accept r (signature_of show ps) c
          ])
      derived false fine = tt
      derived true fine =
          let rules = (validate-iff-IsCompliant policy (map path_of ps)).0 fine in
          let back = sym (map-records_of genome.fields ps) in
          (
            record {
              compliant = subst (λ fs. (validate_change_set policy fs).0 ≡ true) back fine;
              once = subst Distinct back d;
              child = refl;
              others_kept = λ path h. get_field-deep_set genome.fields (overrides_of ps) path (
                  ap (elem path) (paths-overrides_of ps)
                  ∙ absent policy path (map path_of ps) h rules.none_forbidden rules.all_allowed);
            },
            refl,
          )

  attempt-IsNext :
      (names : List String) (version : ℕ) (seen : List Signature) (r : rng.State)
      → Accepted
          (IsNext version)
          (attempt rng policy ops show hash in_range genome names version seen r)
  unfolding attempt
  attempt-IsNext names version seen r =
      let (r1, n_changes) = rng.randint r 1 policy.max_changes_per_candidate in
      let (r2, chosen) = rng.sample r1 names (min n_changes (length names)) in
      judge-IsNext version seen _
        (picked rng policy ops show hash in_range r2 [] chosen genome.fields)
        (pick-IsPicked rng policy ops show hash in_range r2 [] chosen genome.fields).1

  -- The candidates found so far, of which no more than `n` are wanted.
  pub record AreCandidates (n start : ℕ) (found : List G) : Type 0 where
    pub few : length found ≤ n
    pub all : All IsCandidate found
    pub numbered : Numbered start found

  abbrev pub WhenSome : (List G → Type 0) → Option (List G) → Type 0
  WhenSome P none = Unit
  WhenSome P (some found) = P found

  propose_from-AreCandidates :
      (names : List String) (n start rounds : ℕ) (seen : List Signature) (r : rng.State)
      (found : List G)
      → AreCandidates n start found
      → WhenSome
          (AreCandidates n start)
          (propose_from rng policy ops show hash in_range genome names n start rounds seen r found)
  unfolding propose_from
  propose_from-AreCandidates names n start zero seen r found h = h
  propose_from-AreCandidates names n start (suc rounds) seen r found h =
      enough (leb n (length found)) refl
        (attempt rng policy ops show hash in_range genome names (start + length found) seen r)
        (attempt-IsNext names (start + length found) seen r)
        (λ s q f k. propose_from-AreCandidates names n start rounds s q f k)
    where
      go : List Signature → rng.State → List G → Option (List G)
      go s q f = propose_from rng policy ops show hash in_range genome names n start rounds s q f

      enough :
          (b : Bool)
          → leb n (length found) ≡ b
          → (a : Attempt rng.State G) → Accepted (IsNext (start + length found)) a
          → ((s : List Signature) (q : rng.State) (f : List G)
              → AreCandidates n start f
              → WhenSome (AreCandidates n start) (go s q f))
          → WhenSome (AreCandidates n start) (
              if b then some found else elim a as (λ _. Option (List G)) [
                | fail ↦ none
                | skip q ↦ go seen q found
                | accept q s c ↦ go (s ∷ seen) q (found ++ c ∷ [])
              ])
      enough true e a k rec = h
      enough false e fail k rec = tt
      enough false e (skip q) k rec = rec seen q found h
      enough false e (accept q s c) k rec = rec (s ∷ seen) q (found ++ c ∷ []) (record {
        few = ground (arith, e, length-append found (c ∷ []));
        all = All-append IsCandidate found (c ∷ []) h.all (k.0, tt);
        numbered = Numbered-append start found c h.numbered k.1;
      })

-- Unless a value is out of range, `propose` gives at most `n` children of the genome, numbered from
-- `start` on; each comes of changes that the policy accepts, one for a field, and keeps every field
-- that the policy does not allow to change.
pub propose-AreCandidates :
    (fl : Floats) (py : Texts) (rng : Rng) (policy : MutationPolicy) (show : Value fl.F → String)
    (hash : String → Fields (Value fl.F) → String) (in_range : Fields (Value fl.F) → Bool)
    (starts_with : String → String → Bool) (genome : SystemGenome (Value fl.F)) (n start : ℕ)
    (focus : List String) (r : rng.State) (out : List (SystemGenome (Value fl.F)))
    → propose fl py rng policy show hash in_range starts_with genome n start focus r ≡ some out
    → AreCandidates rng policy (operators fl py) show hash in_range genome n start out
unfolding propose
propose-AreCandidates fl py rng policy show hash in_range starts_with genome n start focus r out e =
    subst
      (WhenSome rng policy (operators fl py) show hash in_range genome
        (AreCandidates rng policy (operators fl py) show hash in_range genome n start))
      e
      (propose_from-AreCandidates rng policy (operators fl py) show hash in_range genome
        (focused_names starts_with focus (map (λ op. op.0) (operators fl py))) n start (n * 20 + 20)
        [] r [] (record { few = omega arith; all = tt; numbered = tt }))
