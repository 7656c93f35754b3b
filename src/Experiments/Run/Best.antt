-- ===== src/Experiments/Run/Best.antt =====
-- The incumbent of the search is the best candidate so far, feasible ones first
-- (src/neuroforge/experiments/engine.py, `_run`).
use neuro_forge.Base.{
  ◌≡◌, inl, inr, refl, Bool, true, false, Option, none, some, List, [], ◌∷◌, All, Member, ◌∙◌,
  arith, Bool-cases,
}
use neuro_forge.Base.Float.{Floats, Laws, lt_le_trans, le_lt_trans, lt_asym}
use neuro_forge.Genomes.Schema.{SystemGenome}
use neuro_forge.Optimization.Strategy.{SearchStrategy}
use neuro_forge.Experiments.Limits.{beats}
use neuro_forge.Experiments.Candidate.{ExperimentConfig, Surroundings, Scored}
use neuro_forge.Experiments.Run.{Progress, absorb_one, absorb}

module _ (fl : Floats) (laws : Laws fl) where
  open fl use {F, ltb}

  -- What does not beat an incumbent does not beat one that beats it.
  beats_trans :
      (f g h : Bool) (a b : F) (m : Option F)
      → beats fl f a h m ≡ false
      → beats fl g b h m ≡ true
      → beats fl f a g (some b) ≡ false
  unfolding beats
  beats_trans true true true a b none p q = cc
  beats_trans true true true a b (some c) p q =
      ground (arith, lt_le_trans fl laws c b a, lt_asym fl laws b a, le_lt_trans fl laws c a b)
  beats_trans true true false a b m p q = cc
  beats_trans true false true a b m p q = cc
  beats_trans true false false a b m p q = cc
  beats_trans false true h a b m p q = refl
  beats_trans false false true a b m p q = cc
  beats_trans false false false a b none p q = cc
  beats_trans false false false a b (some c) p q =
      ground (arith, lt_le_trans fl laws c b a, lt_asym fl laws b a, le_lt_trans fl laws c a b)

  beats_irrefl : (f : Bool) (a : F) → beats fl f a f (some a) ≡ false
  unfolding beats
  beats_irrefl true a = laws.lt_irrefl a
  beats_irrefl false a = laws.lt_irrefl a

  -- A candidate ranks above an incumbent: it is feasible and the other is not, or they agree in that
  -- and the other has no fitness or a lower one.
  pub data IsAbove (f : Bool) (a : F) (h : Bool) (m : Option F) : Type 0 where
    by_feasibility : f ≡ true → h ≡ false → IsAbove f a h m
    over_none : f ≡ h → m ≡ none → IsAbove f a h m
    by_fitness : (b : F) → f ≡ h → m ≡ some b → ltb b a ≡ true → IsAbove f a h m

  -- An incumbent ranks at least as high as a candidate.
  pub data IsAtLeast (h : Bool) (m : Option F) (f : Bool) (a : F) : Type 0 where
    only_feasible : h ≡ true → f ≡ false → IsAtLeast h m f a
    as_fit : (b : F) → h ≡ f → m ≡ some b → ltb b a ≡ false → IsAtLeast h m f a

  beats-IsAbove :
      (f : Bool) (a : F) (h : Bool) (m : Option F) → beats fl f a h m ≡ true → IsAbove f a h m
  unfolding beats
  beats-IsAbove true a false m e = by_feasibility refl refl
  beats-IsAbove false a true m e = cc
  beats-IsAbove true a true none e = over_none refl refl
  beats-IsAbove true a true (some b) e = by_fitness b refl refl e
  beats-IsAbove false a false none e = over_none refl refl
  beats-IsAbove false a false (some b) e = by_fitness b refl refl e

  IsAbove-beats :
      (f : Bool) (a : F) (h : Bool) (m : Option F) → IsAbove f a h m → beats fl f a h m ≡ true
  unfolding beats
  IsAbove-beats true a false m above = refl
  IsAbove-beats false a true m (by_feasibility p q) = cc
  IsAbove-beats false a true m (over_none p q) = cc
  IsAbove-beats false a true m (by_fitness b p q e) = cc
  IsAbove-beats true a true none above = refl
  IsAbove-beats false a false none above = refl
  IsAbove-beats true a true (some c) (by_feasibility p q) = cc
  IsAbove-beats true a true (some c) (over_none p q) = cc
  IsAbove-beats true a true (some c) (by_fitness b p q e) = cc
  IsAbove-beats false a false (some c) (by_feasibility p q) = cc
  IsAbove-beats false a false (some c) (over_none p q) = cc
  IsAbove-beats false a false (some c) (by_fitness b p q e) = cc

  beats-IsAtLeast :
      (f : Bool) (a : F) (h : Bool) (m : Option F) → beats fl f a h m ≡ false → IsAtLeast h m f a
  unfolding beats
  beats-IsAtLeast true a false m e = cc
  beats-IsAtLeast false a true m e = only_feasible refl refl
  beats-IsAtLeast true a true none e = cc
  beats-IsAtLeast true a true (some b) e = as_fit b refl refl e
  beats-IsAtLeast false a false none e = cc
  beats-IsAtLeast false a false (some b) e = as_fit b refl refl e

  beats_above :
      (f g h : Bool) (a b : F) (m : Option F)
      → beats fl f a g (some b) ≡ true
      → beats fl g b h m ≡ true
      → beats fl f a h m ≡ true
  unfolding beats
  beats_above true g false a b m p q = refl
  beats_above f false true a b m p q = cc
  beats_above false true h a b m p q = cc
  beats_above true true true a b none p q = refl
  beats_above true true true a b (some c) p q = laws.lt_trans c b a q p
  beats_above false false false a b none p q = refl
  beats_above false false false a b (some c) p q = laws.lt_trans c b a q p

  module _ {V : Type 0} (config : ExperimentConfig F) (env : Surroundings F V)
      (s : SearchStrategy F V) (baseline : SystemGenome V) where
    abbrev P : Type 0
    P = Progress F V s.State

    abbrev one : P → Scored F V → P
    one p x = absorb_one fl config env s baseline p x

    abbrev all : P → List (Scored F V) → P
    all p xs = absorb fl config env s baseline p xs

    -- A candidate with this rank does not displace the incumbent of `p`.
    abbrev pub NotAbove : P → Bool → F → Type 0
    NotAbove p f a = beats fl f a p.best_feasible p.best_fitness ≡ false

    one-NotAbove : (p : P) (x : Scored F V) → NotAbove (one p x) x.feasible x.fitness
    unfolding absorb_one
    one-NotAbove p x =
        elim (Bool-cases (beats fl x.feasible x.fitness p.best_feasible p.best_fitness)) [
          | inl e ↦ rw e (beats_irrefl x.feasible x.fitness)
          | inr e ↦ rw e e
        ]

    one-keeps :
        (p : P) (x : Scored F V) (f : Bool) (a : F) → NotAbove p f a → NotAbove (one p x) f a
    unfolding absorb_one
    one-keeps p x f a n =
        elim (Bool-cases (beats fl x.feasible x.fitness p.best_feasible p.best_fitness)) [
          | inl e ↦ rw e (beats_trans f x.feasible p.best_feasible a x.fitness p.best_fitness n e)
          | inr e ↦ rw e n
        ]

    absorb-keeps_best :
        (p : P) (xs : List (Scored F V)) (f : Bool) (a : F)
        → NotAbove p f a
        → NotAbove (all p xs) f a
    unfolding absorb
    absorb-keeps_best p [] f a n = n
    absorb-keeps_best p (x ∷ xs) f a n = absorb-keeps_best (one p x) xs f a (one-keeps p x f a n)

    -- Where the incumbent of `q` comes from, when the candidates `xs` are scored after `p`.
    pub data IsFrom (p : P) (xs : List (Scored F V)) (q : P) : Type 0 where
      kept :
          q.best_genome ≡ p.best_genome
          → q.best_fitness ≡ p.best_fitness
          → q.best_feasible ≡ p.best_feasible
          → IsFrom p xs q
      taken :
          (x : Scored F V)
          → Member x xs
          → q.best_genome ≡ x.genome
          → q.best_fitness ≡ some x.fitness
          → q.best_feasible ≡ x.feasible
          → IsAbove x.feasible x.fitness p.best_feasible p.best_fitness
          → IsFrom p xs q

    kept-IsFrom :
        (p : P) (x : Scored F V) (xs : List (Scored F V)) (q : P)
        → beats fl x.feasible x.fitness p.best_feasible p.best_fitness ≡ false
        → IsFrom (one p x) xs q
        → IsFrom p (x ∷ xs) q
    unfolding absorb_one
    kept-IsFrom p x xs q e (kept g f h) = kept (g ∙ rw e refl) (f ∙ rw e refl) (h ∙ rw e refl)
    kept-IsFrom p x xs q e (taken y m g f h above) = taken y (inr m) g f h (
        beats-IsAbove y.feasible y.fitness p.best_feasible p.best_fitness
          (still (IsAbove-beats _ _ _ _ above)))
      where
        still :
            beats fl y.feasible y.fitness (one p x).best_feasible (one p x).best_fitness ≡ true
            → beats fl y.feasible y.fitness p.best_feasible p.best_fitness ≡ true
        still = rw e (λ t. t)

    taken-IsFrom :
        (p : P) (x : Scored F V) (xs : List (Scored F V)) (q : P)
        → beats fl x.feasible x.fitness p.best_feasible p.best_fitness ≡ true
        → IsFrom (one p x) xs q
        → IsFrom p (x ∷ xs) q
    unfolding absorb_one
    taken-IsFrom p x xs q e (kept g f h) =
        taken x (inl refl) (g ∙ rw e refl) (f ∙ rw e refl) (h ∙ rw e refl)
          (beats-IsAbove x.feasible x.fitness p.best_feasible p.best_fitness e)
    taken-IsFrom p x xs q e (taken y m g f h above) = taken y (inr m) g f h (
        beats-IsAbove y.feasible y.fitness p.best_feasible p.best_fitness (
          beats_above y.feasible x.feasible p.best_feasible y.fitness x.fitness p.best_fitness
            (over (IsAbove-beats _ _ _ _ above)) e))
      where
        over :
            beats fl y.feasible y.fitness (one p x).best_feasible (one p x).best_fitness ≡ true
            → beats fl y.feasible y.fitness x.feasible (some x.fitness) ≡ true
        over = rw e (λ t. t)

    absorb-IsFrom : (p : P) (xs : List (Scored F V)) → IsFrom p xs (all p xs)
    unfolding absorb
    absorb-IsFrom p [] = kept refl refl refl
    absorb-IsFrom p (x ∷ xs) =
        elim (Bool-cases (beats fl x.feasible x.fitness p.best_feasible p.best_fitness)) [
          | inl e ↦ taken-IsFrom p x xs (all (one p x) xs) e (absorb-IsFrom (one p x) xs)
          | inr e ↦ kept-IsFrom p x xs (all (one p x) xs) e (absorb-IsFrom (one p x) xs)
        ]

    absorb-NotAbove :
        (p : P) (xs : List (Scored F V)) → All (λ x. NotAbove (all p xs) x.feasible x.fitness) xs
    unfolding absorb
    absorb-NotAbove p [] = tt
    absorb-NotAbove p (x ∷ xs) = (
      absorb-keeps_best (one p x) xs x.feasible x.fitness (one-NotAbove p x),
      absorb-NotAbove (one p x) xs,
    )

    -- The rank of a candidate is at most that of the incumbent.
    abbrev pub IsTopped : P → Scored F V → Type 0
    IsTopped q x = IsAtLeast q.best_feasible q.best_fitness x.feasible x.fitness

    topped :
        (q : P) (xs : List (Scored F V))
        → All (λ x. NotAbove q x.feasible x.fitness) xs
        → All (λ x. IsTopped q x) xs
    topped q [] h = tt
    topped q (x ∷ xs) (n, h) =
        (beats-IsAtLeast x.feasible x.fitness q.best_feasible q.best_fitness n, topped q xs h)

    -- The incumbent that a generation leaves, its genome, fitness and feasibility, is the one before or
    -- that of a candidate that ranks above the one before, and no candidate ranks above it: feasible
    -- ones are above infeasible ones, and among equals the higher fitness is above. This needs the laws
    -- of the order of the numbers.
    pub absorb-best :
        (p : P) (xs : List (Scored F V))
        → IsFrom p xs (all p xs) × All (λ x. IsTopped (all p xs) x) xs
    absorb-best p xs = (absorb-IsFrom p xs, topped (all p xs) xs (absorb-NotAbove p xs))
