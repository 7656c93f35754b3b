-- ===== src/Mutations/Operators/Laws.antt =====
-- What the operators propose (src/neuroforge/mutations/operators.py): fields that the default policy
-- allows, new values, and values in range.
use neuro_forge.Base.{
  ℕ, ◌≤◌, ◌≡◌, ◌≢◌, refl, sym, subst, ◌⊎◌, String, Bool, true, false, not, some, List, [], ◌∷◌, map,
  keep, All, All-mono, map-All, keep-All, ◌+◌, ◌-◌, min, max, take-All, arith, eq_iff, nat_eq, ltb,
  ◌==◌, Bool-cases, inl, inr, if◌then◌else◌,
}
use neuro_forge.Base.Float.{Floats, Laws}
use neuro_forge.Genomes.Schema.{Fields, get_field}
use neuro_forge.Mutations.Policy.{is_allowed, default_policy}
use neuro_forge.Mutations.Operators.{
  Value, text, number, flag, decimal, MutationProposal, Texts, text_at, number_at, flag_at,
  other_texts, other_numbers, toggle, propose_value, insert_number, top_k_candidates, decimal_at,
  prompt_add_constraint, prompt_simplify, prompt_strategy, prompt_examples, unequal,
  model_temperature, model_name, retrieval_top_k, retrieval_chunking, retrieval_reranker,
  tools_policy, context_ordering, context_dedup, agent_planning, operators,
}

-- A proposal for a field, with a value that the field does not have.
pub record ChangesField {F : Type 0} (fs : Fields (Value F)) (path : String)
    (p : MutationProposal F) : Type 0 where
  pub same_path : p.field_path ≡ path
  pub new : get_field fs path ≢ some p.new_value

module _ {F : Type 0} (fs : Fields (Value F)) (path : String) where
  text_at-of : (t : String) → get_field fs path ≡ some (text t) → text_at fs path ≡ t
  unfolding text_at
  text_at-of t e = rw (e, text_at) refl

  number_at-of : (n : ℕ) → get_field fs path ≡ some (number n) → number_at fs path ≡ n
  unfolding number_at
  number_at-of n e = rw (e, number_at) refl

  flag_at-of : (b : Bool) → get_field fs path ≡ some (flag b) → flag_at fs path ≡ b
  unfolding flag_at
  flag_at-of b e = rw (e, flag_at) refl

module _ {F : Type 0} (fs : Fields (Value F)) (path kind : String) where
  other_texts-ChangesField :
      (options : List String) → All (ChangesField fs path) (other_texts path kind options fs)
  unfolding other_texts
  other_texts-ChangesField [] = tt
  other_texts-ChangesField (o ∷ os) = elim (Bool-cases (o == text_at fs path)) [
    | inl e ↦ rw e (other_texts-ChangesField os)
    | inr e ↦ rw e (
      record {
        same_path = refl;
        new = λ h. ground (arith, text_at-of fs path o h, eq_iff o (text_at fs path));
      },
      other_texts-ChangesField os,
    )
  ]

  other_numbers-ChangesField :
      (options : List ℕ) → All (ChangesField fs path) (other_numbers path kind options fs)
  unfolding other_numbers
  other_numbers-ChangesField [] = tt
  other_numbers-ChangesField (n ∷ ns) = elim (Bool-cases (nat_eq n (number_at fs path))) [
    | inl e ↦ rw e (other_numbers-ChangesField ns)
    | inr e ↦ rw e (
      record { same_path = refl; new = λ h. ground (arith, number_at-of fs path n h) },
      other_numbers-ChangesField ns,
    )
  ]

  toggle-ChangesField : All (ChangesField fs path) (toggle path kind fs)
  unfolding toggle
  toggle-ChangesField = (
    record {
      same_path = refl;
      new = λ h. ground (arith, flag_at-of fs path (not (flag_at fs path)) h);
    },
    tt,
  )

-- The default policy allows the field, and but for a text of the system prompt the value is new.
pub record IsSound {F : Type 0} (fs : Fields (Value F)) (p : MutationProposal F) : Type 0 where
  pub permitted : is_allowed default_policy p.field_path ≡ true
  pub new : (p.field_path ≡ "prompt.system_prompt") ⊎ (get_field fs p.field_path ≢ some p.new_value)

ChangesField-IsSound :
    {F : Type 0} (fs : Fields (Value F)) (path : String) (ps : List (MutationProposal F))
    → is_allowed default_policy path ≡ true
    → All (ChangesField fs path) ps
    → All (IsSound fs) ps
ChangesField-IsSound fs path ps a all =
    All-mono (ChangesField fs path) (IsSound fs)
      (λ p c. record {
        permitted = subst (λ q. is_allowed default_policy q ≡ true) (sym c.same_path) a;
        new = inr (subst (λ q. get_field fs q ≢ some p.new_value) (sym c.same_path) c.new);
      })
      ps all

system_prompt-IsSound :
    {F : Type 0} (fs : Fields (Value F)) (kind : String) (v : Value F)
    → IsSound fs (propose_value "prompt.system_prompt" kind v)
unfolding is_allowed
system_prompt-IsSound fs kind v = record { permitted = refl; new = inl refl }

map-system_prompt {κ} :
    {A : Type κ} {F : Type 0} (fs : Fields (Value F)) (kind : String) (f : A → Value F)
    (xs : List A)
    → All (IsSound fs) (map (λ x. propose_value "prompt.system_prompt" kind (f x)) xs)
map-system_prompt fs kind f [] = tt
map-system_prompt fs kind f (x ∷ xs) =
    (system_prompt-IsSound fs kind (f x), map-system_prompt fs kind f xs)

module _ (fl : Floats) (laws : Laws fl) (py : Texts) (fs : Fields (Value fl.F)) where
  open fl use {F, ltb}

  decimal_at-of :
      (path : String) (x : F) → get_field fs path ≡ some (decimal x) → decimal_at fl py fs path ≡ x
  unfolding decimal_at
  decimal_at-of path x e = rw (e, decimal_at) refl

  temperatures :
      (cs : List F)
      → All (ChangesField fs "model.temperature") (
          map
            (λ c. propose_value "model.temperature" "model.change_temperature" (decimal c))
            (keep (λ c. unequal fl py c (decimal_at fl py fs "model.temperature")) cs))
  temperatures [] = tt
  temperatures (c ∷ cs) =
      elim (Bool-cases (unequal fl py c (decimal_at fl py fs "model.temperature"))) [
        | inl e ↦ rw e (
          record {
            same_path = refl;
            new = λ h. ground (
              arith,
              decimal_at-of "model.temperature" c h,
              laws.lt_irrefl c,
              subst (λ x. unequal fl py c x ≡ true) (decimal_at-of "model.temperature" c h) e,
            );
          },
          temperatures cs,
        )
        | inr e ↦ rw e (temperatures cs)
      ]

  if-one :
      (b : Bool) (p : MutationProposal F)
      → IsSound fs p
      → All (IsSound fs) (if b then [] else p ∷ [])
  if-one true p h = tt
  if-one false p h = (h, tt)

  -- Whatever the genome is, each proposal of each operator is for a field that the default policy
  -- allows, and has another value than the field has, unless it rewrites the system prompt.
  pub operators-IsSound : All (λ op. All (IsSound fs) (op.1 fs)) (operators fl py)
  unfolding operators is_allowed prompt_add_constraint prompt_simplify prompt_strategy
      prompt_examples model_temperature model_name retrieval_top_k retrieval_chunking
      retrieval_reranker tools_policy context_ordering context_dedup agent_planning
  operators-IsSound = (
    take-All (IsSound fs) 2 _ (map-system_prompt fs "prompt.add_constraint" _ _),
    (
      if-one _ _ (system_prompt-IsSound fs "prompt.simplify" _),
      (
        ChangesField-IsSound fs _ _ refl (other_texts-ChangesField fs _ _ _),
        (
          ChangesField-IsSound fs _ _ refl (toggle-ChangesField fs _ _),
          (
            ChangesField-IsSound fs _ _ refl (temperatures _),
            (
              ChangesField-IsSound fs _ _ refl (other_texts-ChangesField fs _ _ _),
              (
                ChangesField-IsSound fs _ _ refl (other_numbers-ChangesField fs _ _ _),
                (
                  ChangesField-IsSound fs _ _ refl (other_numbers-ChangesField fs _ _ _),
                  (
                    ChangesField-IsSound fs _ _ refl (other_texts-ChangesField fs _ _ _),
                    (
                      ChangesField-IsSound fs _ _ refl (other_texts-ChangesField fs _ _ _),
                      (
                        ChangesField-IsSound fs _ _ refl (other_texts-ChangesField fs _ _ _),
                        (
                          ChangesField-IsSound fs _ _ refl (toggle-ChangesField fs _ _),
                          (
                            ChangesField-IsSound fs _ _ refl (other_texts-ChangesField fs _ _ _),
                            tt,
                          ),
                        ),
                      ),
                    ),
                  ),
                ),
              ),
            ),
          ),
        ),
      ),
    ),
  )

insert_number-All {κ} :
    (P : ℕ → Type κ) (n : ℕ) (ms : List ℕ) → P n → All P ms → All P (insert_number n ms)
unfolding insert_number
insert_number-All P n [] p all = (p, tt)
insert_number-All P n (m ∷ ms) p all =
    if-All2 (nat_eq n m) (ltb n m) (insert_number-All P n ms p all.1)
  where
    if-All2 :
        (b c : Bool)
        → All P (insert_number n ms)
        → All P (if b then m ∷ ms else if c then n ∷ m ∷ ms else m ∷ insert_number n ms)
    if-All2 true c r = all
    if-All2 false true r = (p, all)
    if-All2 false false r = (all.0, r)

-- A number that `RetrievalConfig` accepts for `top_k`.
pub record IsTopK {F : Type 0} (p : MutationProposal F) : Type 0 where
  pub count : ℕ
  pub is_count : p.new_value ≡ number count
  pub at_least : 1 ≤ count
  pub at_most : count ≤ 50

-- The proposals for `top_k` of a genome that has at most 50 stay between 1 and 50, the range that
-- pydantic checks.
pub retrieval_top_k-IsTopK :
    (fl : Floats) (py : Texts) (fs : Fields (Value fl.F))
    → number_at fs "retrieval.top_k" ≤ 50
    → All IsTopK (retrieval_top_k fl py fs)
unfolding retrieval_top_k other_numbers top_k_candidates
retrieval_top_k-IsTopK fl py fs h =
    let k = number_at fs "retrieval.top_k" in
    let cs = top_k_candidates k in
    let within : All (λ n. (1 ≤ n) × (n ≤ 50)) cs =
      insert_number-All (λ n. (1 ≤ n) × (n ≤ 50)) (max 1 (k - 2)) _ (omega arith)
        (insert_number-All (λ n. (1 ≤ n) × (n ≤ 50)) (min 50 (k + 2))
          (insert_number (min 50 (k + 4)) []) (omega arith)
          (insert_number-All (λ n. (1 ≤ n) × (n ≤ 50)) (min 50 (k + 4)) [] (omega arith) tt)) in
    map-All IsTopK _ _ (
      All-mono (λ n. (1 ≤ n) × (n ≤ 50))
        (λ n.
          IsTopK {F = fl.F} (propose_value "retrieval.top_k" "retrieval.change_top_k" (number n)))
        (λ n b. record { count = n; is_count = refl; at_least = b.0; at_most = b.1 }) _
        (keep-All (λ n. (1 ≤ n) × (n ≤ 50)) (λ n. not (nat_eq n k)) cs within))
