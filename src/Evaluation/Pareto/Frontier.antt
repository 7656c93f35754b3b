-- ===== src/Evaluation/Pareto/Frontier.antt =====
-- The frontier covers every point.
use neuro_forge.Base.{
  ◌≡◌, refl, sym, subst, ap, ◌⊎◌, inl, inr, Bool, true, false, List, [], ◌∷◌, keep, All, Member,
  arith, Bool-cases, if◌then◌else◌,
}
use neuro_forge.Base.Float.{Floats, Laws}
use neuro_forge.Evaluation.Pareto.{
  ParetoPoint, Directions, dominates, dominates_point, dominators, pareto_result,
}
use neuro_forge.Evaluation.Pareto.Order.{dominates_irrefl, dominates_trans}

module _ (fl : Floats) (laws : Laws fl) (ds : Directions) where
  open fl use {F}

  abbrev beats : ParetoPoint F → ParetoPoint F → Bool
  beats p q = dominates fl p.metrics q.metrics ds

  -- Go over the points, and move to each that dominates the present one.
  climb : ParetoPoint F → List (ParetoPoint F) → ParetoPoint F
  climb c [] = c
  climb c (x ∷ xs) = climb (if beats x c then x else c) xs

  abbrev AtLeast : ParetoPoint F → ParetoPoint F → Type 0
  AtLeast c p = (c ≡ p) ⊎ (beats c p ≡ true)

  AtLeast-trans : (a b c : ParetoPoint F) → AtLeast a b → AtLeast b c → AtLeast a c
  AtLeast-trans a b c (inl e) q = subst (λ x. AtLeast x c) (sym e) q
  AtLeast-trans a b c (inr h) (inl e) = inr (subst (λ x. beats a x ≡ true) e h)
  AtLeast-trans a b c (inr h) (inr k) =
      inr (dominates_trans fl laws a.metrics b.metrics c.metrics ds h k)

  -- What does not dominate a point dominates nothing above it.
  not_above : (q c p : ParetoPoint F) → AtLeast c p → beats q p ≡ false → beats q c ≡ false
  not_above q c p (inl e) h = subst (λ x. beats q x ≡ false) (sym e) h
  not_above q c p (inr k) h = elim (Bool-cases (beats q c)) [
    | inl e ↦ cc (dominates_trans fl laws q.metrics c.metrics p.metrics ds e k)
    | inr e ↦ e
  ]

  not_itself : (q x c : ParetoPoint F) → beats x c ≡ true → AtLeast q x → beats c q ≡ false
  not_itself q x c h up = not_above c q x up (elim (Bool-cases (beats c x)) [
    | inl e ↦ cc (
      dominates_trans fl laws c.metrics x.metrics c.metrics ds e h,
      dominates_irrefl fl laws c.metrics ds,
    )
    | inr e ↦ e
  ])

  -- `t` is reached from `c` over `xs`, and neither `c` nor a point of `xs` dominates it.
  abbrev IsTop : ParetoPoint F → List (ParetoPoint F) → ParetoPoint F → Type 0
  IsTop c xs t = AtLeast t c × (beats c t ≡ false) × All (λ q. beats q t ≡ false) xs

  climb-cons :
      (c x : ParetoPoint F) (xs : List (ParetoPoint F)) {b : Bool}
      → beats x c ≡ b
      → climb c (x ∷ xs) ≡ climb (if b then x else c) xs
  unfolding climb
  climb-cons c x xs e = ap (λ b. climb (if b then x else c) xs) e

  climb-IsTop : (c : ParetoPoint F) (xs : List (ParetoPoint F)) → IsTop c xs (climb c xs)
  unfolding climb
  climb-IsTop c [] = (inl refl, dominates_irrefl fl laws c.metrics ds, tt)
  climb-IsTop c (x ∷ xs) = elim (Bool-cases (beats x c)) [
    | inl up ↦
        let t = climb x xs in
        let (above, own, rest) = climb-IsTop x xs in
        subst (IsTop c (x ∷ xs)) (sym (climb-cons c x xs up))
          (AtLeast-trans t x c above (inr up), not_itself t x c up above, (own, rest))
    | inr stay ↦
        let t = climb c xs in
        let (above, own, rest) = climb-IsTop c xs in
        subst (IsTop c (x ∷ xs)) (sym (climb-cons c x xs stay))
          (above, own, (not_above x t c above stay, rest))
  ]

  Member-climb :
      (c : ParetoPoint F) (xs all : List (ParetoPoint F))
      → Member c all
      → ((x : ParetoPoint F) → Member x xs → Member x all)
      → Member (climb c xs) all
  unfolding climb
  Member-climb c [] all m f = m
  Member-climb c (x ∷ xs) all m f = elim (Bool-cases (beats x c)) [
    | inl up ↦
        subst (λ t. Member t all) (sym (climb-cons c x xs up))
          (Member-climb x xs all (f x (inl refl)) (λ y k. f y (inr k)))
    | inr stay ↦
        subst (λ t. Member t all) (sym (climb-cons c x xs stay))
          (Member-climb c xs all m (λ y k. f y (inr k)))
  ]

  undominated :
      (c : ParetoPoint F) (xs : List (ParetoPoint F))
      → All (λ q. beats q c ≡ false) xs
      → keep (dominates_point fl ds c) xs ≡ []
  undominated c [] all = refl
  undominated c (x ∷ xs) all = ground (arith, undominated c xs all.1)

  -- Every point of a population is on the frontier, or is dominated by a point of the population that
  -- is: no point is reported as dominated without one that is Pareto-optimal above it.
  pub frontier_covers :
      (points : List (ParetoPoint F)) (p : ParetoPoint F)
      → Member p points
      → (c : ParetoPoint F) × Member c points
        × ((pareto_result fl points ds c).is_pareto_optimal ≡ true)
        × ((c ≡ p) ⊎ (dominates fl c.metrics p.metrics ds ≡ true))
  unfolding pareto_result dominators
  frontier_covers points p m =
      let c = climb p points in
      let (above, own, rest) = climb-IsTop p points in
      (c, Member-climb p points points m (λ x k. k), rw (undominated c points rest) refl, above)
