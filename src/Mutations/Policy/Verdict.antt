-- ===== src/Mutations/Policy/Verdict.antt =====
-- What the mutation policy accepts (src/neuroforge/mutations/policy.py).
use neuro_forge.Base.{
  ◌≤◌, ◌≡◌, refl, String, true, false, ◌&&◌, List, [], ◌∷◌, length, elem, All, ◌↔◌, arith,
}
use neuro_forge.Mutations.Policy.{
  MutationPolicy, is_allowed, check_fields, check_combinations, validate_change_set,
}

-- What a set of changes has to be.
pub record IsCompliant (policy : MutationPolicy) (fs : List String) : Type 0 where
  pub few : length fs ≤ policy.max_changes_per_candidate
  pub none_forbidden : All (λ f. elem f policy.forbidden ≡ false) fs
  pub all_allowed : All (λ f. elem f policy.allowed ≡ true) fs
  pub not_combined :
      All (λ ab. (elem ab.0 fs && elem ab.1 fs) ≡ false) policy.forbidden_combinations

check_fields_to :
    (policy : MutationPolicy) (fs : List String)
    → (check_fields policy fs).0 ≡ true
    → All (λ f. elem f policy.forbidden ≡ false) fs × All (λ f. elem f policy.allowed ≡ true) fs
unfolding check_fields is_allowed
check_fields_to policy [] e = (tt, tt)
check_fields_to policy (f ∷ fs) e = ground (arith, check_fields_to policy fs)

check_fields_from :
    (policy : MutationPolicy) (fs : List String)
    → All (λ f. elem f policy.forbidden ≡ false) fs
    → All (λ f. elem f policy.allowed ≡ true) fs
    → (check_fields policy fs).0 ≡ true
unfolding check_fields is_allowed
check_fields_from policy [] p q = refl
check_fields_from policy (f ∷ fs) p q = ground (arith, check_fields_from policy fs p.1 q.1)

check_combinations_to :
    (cs : List (String × String)) (fs : List String)
    → (check_combinations cs fs).0 ≡ true
    → All (λ ab. (elem ab.0 fs && elem ab.1 fs) ≡ false) cs
unfolding check_combinations
check_combinations_to [] fs e = tt
check_combinations_to (c ∷ cs) fs e = ground (arith, check_combinations_to cs fs)

check_combinations_from :
    (cs : List (String × String)) (fs : List String)
    → All (λ ab. (elem ab.0 fs && elem ab.1 fs) ≡ false) cs
    → (check_combinations cs fs).0 ≡ true
unfolding check_combinations
check_combinations_from [] fs p = refl
check_combinations_from (c ∷ cs) fs p = ground (arith, check_combinations_from cs fs p.1)

-- The policy accepts a set of changes exactly when it is small enough, each field is allowed and none
-- is forbidden, and no two of the fields are a forbidden combination.
pub validate-iff-IsCompliant :
    (policy : MutationPolicy) (fs : List String)
    → ((validate_change_set policy fs).0 ≡ true) ↔ IsCompliant policy fs
unfolding validate_change_set
validate-iff-IsCompliant policy fs = (
  λ e.
      let fine : (check_fields policy fs).0 ≡ true = ground arith in
      let fields = check_fields_to policy fs fine in
      record {
        few = ground arith;
        none_forbidden = fields.0;
        all_allowed = fields.1;
        not_combined =
            check_combinations_to policy.forbidden_combinations fs (ground (arith, fine));
      },
  λ c. ground (
    arith,
    c.few,
    check_fields_from policy fs c.none_forbidden c.all_allowed,
    check_combinations_from policy.forbidden_combinations fs c.not_combined,
  ),
)
