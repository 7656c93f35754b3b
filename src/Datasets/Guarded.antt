-- ===== src/Datasets/Guarded.antt =====
-- The holdout is handed out once for a candidate (src/neuroforge/datasets/holdout.py).
use neuro_forge.Base.{
  String, ◌≡◌, refl, sym, subst, true, false, List, [], ◌∷◌, ◌++◌, elem, elem-append, Distinct,
  arith, eq_iff, if◌then◌else◌, Bool-cases, inl, inr, ok, err,
}
use neuro_forge.Datasets.Holdout.{HoldoutGuard, evaluate_holdout}

module _ {F : Type 0} where
  -- The genomes for which a run of requests was given the holdout.
  unfoldable pub served : HoldoutGuard F → List String → List String
  served g [] = []
  served g (h ∷ hs) = elim (evaluate_holdout g h) [
    | ok (g', cs) ↦ h ∷ served g' hs
    | err e ↦ served g hs
  ]

  abbrev after : HoldoutGuard F → String → HoldoutGuard F
  after g h = record g { accessed_for = g.accessed_for ++ h ∷ [] }

  served-cons :
      (g : HoldoutGuard F) (h : String) (hs : List String)
      → served g (h ∷ hs)
        ≡ (if elem h g.accessed_for then served g hs else h ∷ served (after g h) hs)
  unfolding served evaluate_holdout
  served-cons g h hs = ground arith

  served-absent :
      (g : HoldoutGuard F) (k : String) (hs : List String)
      → elem k g.accessed_for ≡ true
      → elem k (served g hs) ≡ false
  unfolding served
  served-absent g k [] e = refl
  served-absent g k (h ∷ hs) e = ground (
    arith,
    served-cons g h hs,
    eq_iff k h,
    eq_iff h k,
    served-absent g k hs e,
    served-absent (after g h) k hs,
    elem-append k g.accessed_for (h ∷ []),
  )

  -- Whatever genomes ask for the holdout and in whatever order, none is given it twice.
  pub served-Distinct : (g : HoldoutGuard F) (hs : List String) → Distinct (served g hs)
  unfolding served
  served-Distinct g [] = tt
  served-Distinct g (h ∷ hs) = elim (Bool-cases (elem h g.accessed_for)) [
    | inl again ↦
        let e : served g (h ∷ hs) ≡ served g hs = ground (arith, served-cons g h hs, again) in
        subst Distinct (sym e) (served-Distinct g hs)
    | inr first ↦
        let e : served g (h ∷ hs) ≡ h ∷ served (after g h) hs =
          ground (arith, served-cons g h hs, first) in
        let once : elem h (served (after g h) hs) ≡ false =
          served-absent (after g h) h hs
            (ground (arith, eq_iff h h, elem-append h g.accessed_for (h ∷ []))) in
        subst Distinct (sym e) (once, served-Distinct (after g h) hs)
  ]
