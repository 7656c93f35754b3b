-- ===== src/Datasets/Growth.antt =====
-- A dataset grows: the ids stay apart, and what it holds keeps its split
-- (src/neuroforge/datasets/evolution.py).
use neuro_forge.Base.{
  ℕ, ◌+◌, append-nil, append_assoc, map-append, ◌∙◌, String, ◌≡◌, ◌⊎◌, refl, sym, subst, ap, false,
  List, [], ◌∷◌, ◌++◌, map, keep, keep-append, elem, elem-append, Distinct, append-Distinct, All,
  arith, eq_iff, ◌==◌, if◌then◌else◌,
}
use neuro_forge.Base.Decimal.{versioned, versioned_inj}
use neuro_forge.Base.Float.{Floats}
use neuro_forge.Datasets.{Challenge, DatasetVersion, in_split, split_of}
use neuro_forge.Datasets.Holdout.{deterministic_split}
use neuro_forge.Datasets.Evolution.{rename_taken, ids, split_default, extend}

module _ (fl : Floats) (draw : ℕ → String → fl.F) where
  open fl use {F}

  -- Splitting changes no id.
  map-deterministic_split :
      (cs : List (Challenge F)) (seed : ℕ) (a b : F)
      → map (λ c. c.challenge_id) (deterministic_split fl draw cs seed a b)
        ≡ map (λ c. c.challenge_id) cs
  unfolding deterministic_split
  map-deterministic_split [] seed a b = refl
  map-deterministic_split (c ∷ cs) seed a b =
      ap (λ is. c.challenge_id ∷ is) (map-deterministic_split cs seed a b)

  -- The part of each split that the dataset had is kept as it was, in its order, and only new
  -- challenges come after it.
  pub split_of-extend :
      (d : DatasetVersion F) (cs : List (Challenge F)) (seed : ℕ) (source name : String)
      → split_of (extend fl draw d cs seed source) name
        ≡ split_of d name
          ++ keep (in_split name) (
              split_default fl draw
                (rename_taken fl draw (ids fl draw d.challenges) (d.version + 1) cs)
                seed)
  unfolding extend split_of
  split_of-extend d cs seed source name = keep-append (in_split name) d.challenges (
      split_default fl draw (rename_taken fl draw (ids fl draw d.challenges) (d.version + 1) cs)
        seed)

-- No id that the suffix of version `v` makes is one of `names`.
abbrev pub NoClash : ℕ → List String → List String → Type 0
NoClash v names is = All (λ i. elem (versioned i v) names ≡ false) is

versioned_ne : (i c : String) (v : ℕ) → (c == i) ≡ false → (versioned i v == versioned c v) ≡ false
versioned_ne i c v e =
    ground (arith, eq_iff c i, eq_iff (versioned i v) (versioned c v), versioned_inj i c v)

-- The ids that come later clash with neither name that `c` may get.
NoClash-append :
    (c cid : String) (v : ℕ) (taken rest is : List String)
    → elem c is ≡ false
    → (cid ≡ c) ⊎ (cid ≡ versioned c v)
    → NoClash v (taken ++ c ∷ rest) is
    → NoClash v ((taken ++ cid ∷ []) ++ rest) is
NoClash-append c cid v taken rest [] e h n = tt
NoClash-append c cid v taken rest (i ∷ is) e h n = (
  ground (
    arith,
    h,
    n.0,
    e,
    elem-append (versioned i v) taken (c ∷ rest),
    elem-append (versioned i v) (taken ++ cid ∷ []) rest,
    elem-append (versioned i v) taken (cid ∷ []),
    versioned_ne i c v,
  ),
  NoClash-append c cid v taken rest is (ground (arith, e)) h n.1,
)

module _ (fl : Floats) (draw : ℕ → String → fl.F) where
  open fl use {F}

  new_id : List String → ℕ → String → String
  new_id taken v c = if elem c taken then versioned c v else c

  new_id_cases :
      (taken : List String) (v : ℕ) (c : String)
      → (new_id taken v c ≡ c) ⊎ (new_id taken v c ≡ versioned c v)
  unfolding new_id
  new_id_cases taken v c = ground arith

  elem-new_id :
      (taken : List String) (v : ℕ) (c : String)
      → elem (versioned c v) taken ≡ false
      → elem (new_id taken v c) taken ≡ false
  unfolding new_id
  elem-new_id taken v c n = ground arith

  -- What the loop adds to the ids that are taken is new each time.
  rename_taken-Distinct :
      (taken : List String) (v : ℕ) (cs : List (Challenge F))
      → Distinct taken
      → Distinct (ids fl draw cs)
      → NoClash v (taken ++ ids fl draw cs) (ids fl draw cs)
      → Distinct (taken ++ ids fl draw (rename_taken fl draw taken v cs))
  unfolding rename_taken new_id
  rename_taken-Distinct taken v [] d e n = subst Distinct (sym (append-nil taken)) d
  rename_taken-Distinct taken v (c ∷ cs) d e n =
      let k = c.challenge_id in
      let cid = new_id taken v k in
      let free : elem (versioned k v) taken ≡ false =
        ground (arith, n.0, elem-append (versioned k v) taken (k ∷ ids fl draw cs)) in
      let rest =
        rename_taken-Distinct (taken ++ cid ∷ []) v cs
          (append-Distinct cid taken (elem-new_id taken v k free) d) e.1
          (NoClash-append k cid v taken (ids fl draw cs) (ids fl draw cs) e.0
            (new_id_cases taken v k) n.1) in
      subst Distinct
        (append_assoc taken (cid ∷ [])
          (ids fl draw (rename_taken fl draw (taken ++ cid ∷ []) v cs)))
        rest

  -- A dataset whose ids are distinct grows to one whose ids are distinct, also by challenges whose
  -- ids it has already, if those are distinct among themselves and no id in sight is another's with
  -- the suffix of the new version.
  pub extend-Distinct :
      (d : DatasetVersion F) (cs : List (Challenge F)) (seed : ℕ) (source : String)
      → Distinct (ids fl draw d.challenges)
      → Distinct (ids fl draw cs)
      → NoClash (d.version + 1) (ids fl draw d.challenges ++ ids fl draw cs) (ids fl draw cs)
      → Distinct (ids fl draw (extend fl draw d cs seed source).challenges)
  unfolding extend
  extend-Distinct d cs seed source h e n =
      let u = rename_taken fl draw (ids fl draw d.challenges) (d.version + 1) cs in
      subst Distinct
        (sym (
          map-append (λ c. c.challenge_id) d.challenges (split_default fl draw u seed)
          ∙ ap (λ is. ids fl draw d.challenges ++ is)
              (map-deterministic_split fl draw u seed (fl.dec 70 2) (fl.dec 15 2))))
        (rename_taken-Distinct (ids fl draw d.challenges) (d.version + 1) cs h e n)
