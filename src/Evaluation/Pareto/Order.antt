-- ===== src/Evaluation/Pareto/Order.antt =====
-- Dominance is a strict partial order.
use neuro_forge.Base.{String, ◌≡◌, inl, inr, Bool, true, false, ◌||◌, [], ◌∷◌, arith, Bool-cases}
use neuro_forge.Base.Float.{Floats, Laws, le_trans, lt_le_trans, le_lt_trans}
use neuro_forge.Evaluation.Pareto.{
  Direction, maximize, minimize, Directions, better, no_worse, dominates_from, dominates,
}

module _ (fl : Floats) (laws : Laws fl) where
  open fl use {F, ltb}

  better_irrefl : (d : Direction) (x : F) → better fl d x x ≡ false
  unfolding better
  better_irrefl maximize x = laws.lt_irrefl x
  better_irrefl minimize x = laws.lt_irrefl x

  no_worse_trans :
      (d : Direction) (x y z : F)
      → no_worse fl d x y ≡ true
      → no_worse fl d y z ≡ true
      → no_worse fl d x z ≡ true
  unfolding no_worse
  no_worse_trans maximize x y z p q = ground (arith, le_trans fl laws z y x)
  no_worse_trans minimize x y z p q = ground (arith, le_trans fl laws x y z)

  better_trans :
      (d : Direction) (x y z : F)
      → no_worse fl d x y ≡ true
      → no_worse fl d y z ≡ true
      → (better fl d x y || better fl d y z) ≡ true
      → better fl d x z ≡ true
  unfolding no_worse better
  better_trans maximize x y z p q b =
      ground (arith, lt_le_trans fl laws z y x, le_lt_trans fl laws z y x)
  better_trans minimize x y z p q b =
      ground (arith, lt_le_trans fl laws x y z, le_lt_trans fl laws x y z)

  dominates_from_mono :
      (s s' : Bool) (a b : String → F) (ds : Directions)
      → (s ≡ true → s' ≡ true)
      → dominates_from fl s a b ds ≡ true
      → dominates_from fl s' a b ds ≡ true
  unfolding dominates_from
  dominates_from_mono s s' a b [] f e = f e
  dominates_from_mono s s' a b ((k, d) ∷ ds) f e = elim (Bool-cases (no_worse fl d (a k) (b k))) [
    | inl fine ↦ rw fine (
        dominates_from_mono (s || better fl d (a k) (b k)) (s' || better fl d (a k) (b k)) a b ds
          (λ h. ground arith) (rw fine at e))
    | inr worse ↦ absurd (ground arith)
  ]

  dominates_from_irrefl :
      (s : Bool) (a : String → F) (ds : Directions) → dominates_from fl s a a ds ≡ true → s ≡ true
  unfolding dominates_from
  dominates_from_irrefl s a [] e = e
  dominates_from_irrefl s a ((k, d) ∷ ds) e =
      ground
        (arith, better_irrefl d (a k), dominates_from_irrefl (s || better fl d (a k) (a k)) a ds)

  dominates_from_trans :
      (s t : Bool) (a b c : String → F) (ds : Directions)
      → dominates_from fl s a b ds ≡ true
      → dominates_from fl t b c ds ≡ true
      → dominates_from fl (s || t) a c ds ≡ true
  unfolding dominates_from
  dominates_from_trans s t a b c [] p q = ground arith
  dominates_from_trans s t a b c ((k, d) ∷ ds) p q =
      let x = a k in
      let y = b k in
      let z = c k in
      let first : no_worse fl d x y ≡ true = ground arith in
      let second : no_worse fl d y z ≡ true = ground arith in
      rw (no_worse_trans d x y z first second) (
        dominates_from_mono ((s || better fl d x y) || (t || better fl d y z))
          ((s || t) || better fl d x z) a c ds
          (λ h. ground (arith, better_trans d x y z first second))
          (dominates_from_trans (s || better fl d x y) (t || better fl d y z) a b c ds
            (rw first at p) (rw second at q)))

  -- No point dominates itself.
  pub dominates_irrefl : (a : String → F) (ds : Directions) → dominates fl a a ds ≡ false
  unfolding dominates
  dominates_irrefl a ds = elim (Bool-cases (dominates_from fl false a a ds)) [
    | inl e ↦ cc (dominates_from_irrefl false a ds e)
    | inr e ↦ e
  ]

  -- What dominates a point dominates all that the point dominates.
  pub dominates_trans :
      (a b c : String → F) (ds : Directions)
      → dominates fl a b ds ≡ true
      → dominates fl b c ds ≡ true
      → dominates fl a c ds ≡ true
  unfolding dominates
  dominates_trans a b c ds p q = dominates_from_trans false false a b c ds p q
