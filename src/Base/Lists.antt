-- ===== src/Base/Lists.antt =====
-- Lists measured by native numbers, under the library's names, and predicates over lists.
use Prim.Native.Nat.{ℕ, zero, suc, ◌+◌, ◌≤◌, min}
use mathlib.Core.Path.{◌≡◌, refl, sym, ap, subst}
use mathlib.Core.Logic.{◌⊎◌, inl, inr}
use mathlib.Core.Bool.{Bool, true, false}
use mathlib.Core.List.{List, [], ◌∷◌, ◌++◌, map}
use mathlib.Core.Option.{Option, none, some, some_inj}
use native.Mathlib.Omega.{arith}
use neuro_forge.Base.Tests.{if◌then◌else◌}

module _ {ℓ} {A : Type ℓ} where
  abbrev pub length : List A → ℕ
  length [] = 0
  length (x ∷ xs) = suc (length xs)

  abbrev pub take : ℕ → List A → List A
  take zero xs = []
  take (suc n) [] = []
  take (suc n) (x ∷ xs) = x ∷ take n xs

  abbrev pub drop : ℕ → List A → List A
  drop zero xs = xs
  drop (suc n) [] = []
  drop (suc n) (x ∷ xs) = drop n xs

  abbrev pub get_elem? : List A → ℕ → Option A
  get_elem? [] i = none
  get_elem? (x ∷ xs) zero = some x
  get_elem? (x ∷ xs) (suc i) = get_elem? xs i

  -- `xs[-1] if xs else None`
  abbrev pub get_last? : List A → Option A
  get_last? [] = none
  get_last? (x ∷ []) = some x
  get_last? (x ∷ y ∷ xs) = get_last? (y ∷ xs)

  -- `[x for x in xs if p(x)]`
  abbrev pub keep : (A → Bool) → List A → List A
  keep p [] = []
  keep p (x ∷ xs) = let rest = keep p xs in if p x then x ∷ rest else rest

  -- The first element that passes a test.
  abbrev pub find : (A → Bool) → List A → Option A
  find p [] = none
  find p (x ∷ xs) = let rest = find p xs in if p x then some x else rest

  abbrev pub All {κ} : (A → Type κ) → List A → Type κ
  All P [] = Unit
  All P (x ∷ xs) = P x × All P xs

  pub length-append : (xs ys : List A) → length (xs ++ ys) ≡ length xs + length ys
  length-append [] ys = omega arith
  length-append (x ∷ xs) ys = omega (arith, length-append xs ys)

keep_cons {ℓ κ} :
    {A : Type ℓ} (P : A → Type κ) (p : A → Bool) (b : Bool) (x : A) (xs : List A)
    → (b ≡ true → P x)
    → All P (keep p xs)
    → All P (if b then x ∷ keep p xs else keep p xs)
keep_cons P p true x xs h r = (h refl, r)
keep_cons P p false x xs h r = r

module _ {ℓ} {A : Type ℓ} where
  pub get_last?-append : (xs : List A) (x : A) → get_last? (xs ++ x ∷ []) ≡ some x
  get_last?-append [] x = refl
  get_last?-append (y ∷ []) x = refl
  get_last?-append (y ∷ z ∷ xs) x = get_last?-append (z ∷ xs) x

  pub keep-append : (p : A → Bool) (xs ys : List A) → keep p (xs ++ ys) ≡ keep p xs ++ keep p ys
  keep-append p [] ys = refl
  keep-append p (x ∷ xs) ys = ground (arith, keep-append p xs ys)

  pub length-keep : (p : A → Bool) (xs : List A) → length (keep p xs) ≤ length xs
  length-keep p [] = omega arith
  length-keep p (x ∷ xs) = ground (arith, length-keep p xs)

  pub length-take : (n : ℕ) (xs : List A) → length (take n xs) ≡ min n (length xs)
  length-take zero xs = omega arith
  length-take (suc n) [] = omega arith
  length-take (suc n) (x ∷ xs) = omega (arith, length-take n xs)

  pub length-map {κ} : {B : Type κ} (xs : List A) (f : A → B) → length (map f xs) ≡ length xs
  length-map [] f = refl
  length-map (x ∷ xs) f = ap suc (length-map xs f)

  pub All-keep {κ} :
      (P : A → Type κ) (p : A → Bool)
      → ((x : A) → p x ≡ true → P x)
      → (xs : List A) → All P (keep p xs)
  All-keep P p h [] = tt
  All-keep P p h (x ∷ xs) = keep_cons P p (p x) x xs (h x) (All-keep P p h xs)

module _ {ℓ κ} {A : Type ℓ} (P : A → Type κ) where
  pub All-if : (b : Bool) (xs ys : List A) → All P xs → All P ys → All P (if b then xs else ys)
  All-if true xs ys p q = p
  All-if false xs ys p q = q

  pub All-append : (xs ys : List A) → All P xs → All P ys → All P (xs ++ ys)
  All-append [] ys p q = q
  All-append (x ∷ xs) ys p q = (p.0, All-append xs ys p.1 q)

  pub keep-All : (test : A → Bool) (xs : List A) → All P xs → All P (keep test xs)
  keep-All test [] p = tt
  keep-All test (x ∷ xs) p =
      let rest = keep-All test xs p.1 in
      All-if (test x) (x ∷ keep test xs) (keep test xs) (p.0, rest) rest

pub All-mono {ℓ κ μ} :
    {A : Type ℓ} (P : A → Type κ) (Q : A → Type μ)
    → ((x : A) → P x → Q x)
    → (xs : List A) → All P xs
    → All Q xs
All-mono P Q h [] p = tt
All-mono P Q h (x ∷ xs) p = (h x p.0, All-mono P Q h xs p.1)

pub All-both {ℓ} :
    {A : Type 0} (P Q R : A → Type ℓ)
    → ((x : A) → P x → Q x → R x)
    → (xs : List A) → All P xs
    → All Q xs
    → All R xs
All-both P Q R h [] p q = tt
All-both P Q R h (x ∷ xs) p q = (h x p.0 q.0, All-both P Q R h xs p.1 q.1)

-- What holds of the elements that pass a test, for all elements.
pub All-unkeep {ℓ κ} :
    {A : Type ℓ} (P : A → Type κ) (test : A → Bool) (xs : List A)
    → All P (keep test xs)
    → All (λ x. test x ≡ true → P x) xs
All-unkeep P test [] p = tt
All-unkeep P test (x ∷ xs) p = at_head (test x) p (λ q. All-unkeep P test xs q)
  where
    at_head :
        (b : Bool)
        → All P (if b then x ∷ keep test xs else keep test xs)
        → (All P (keep test xs) → All (λ x. test x ≡ true → P x) xs)
        → (b ≡ true → P x) × All (λ x. test x ≡ true → P x) xs
    at_head true q rest = (λ _. q.0, rest q.1)
    at_head false q rest = ((λ e. cc), rest q)

pub take-All {ℓ κ} :
    {A : Type ℓ} (P : A → Type κ) (n : ℕ) (xs : List A) → All P xs → All P (take n xs)
take-All P zero xs p = tt
take-All P (suc n) [] p = tt
take-All P (suc n) (x ∷ xs) p = (p.0, take-All P n xs p.1)

pub map-All {ℓ κ μ} :
    {A : Type ℓ} {B : Type κ} (P : B → Type μ) (f : A → B) (xs : List A)
    → All (λ x. P (f x)) xs
    → All P (map f xs)
map-All P f [] p = tt
map-All P f (x ∷ xs) p = (p.0, map-All P f xs p.1)

-- What holds of all elements holds of the one at an index.
pub get_elem?-All {ℓ κ} :
    {A : Type ℓ} (P : A → Type κ) (xs : List A) (i : ℕ) (x : A)
    → All P xs
    → get_elem? xs i ≡ some x
    → P x
get_elem?-All P [] i x p e = cc
get_elem?-All P (y ∷ xs) zero x p e = subst P (some_inj.0 e) p.0
get_elem?-All P (y ∷ xs) (suc i) x p e = get_elem?-All P xs i x p.1 e

-- What holds of all elements holds of the one that is found, and it passes the test.
pub find-All {ℓ κ} :
    {A : Type ℓ} (P : A → Type κ) (test : A → Bool) (xs : List A) (y : A)
    → find test xs ≡ some y
    → All P xs
    → P y
find-All P test [] y h ps = cc
find-All P test (x ∷ xs) y h ps = at_head (test x) h (λ g. find-All P test xs y g ps.1)
  where
    at_head :
        (b : Bool)
        → (if b then some x else find test xs) ≡ some y
        → (find test xs ≡ some y → P y)
        → P y
    at_head true g rest = subst P (some_inj.0 g) ps.0
    at_head false g rest = rest g

pub find-true {ℓ} :
    {A : Type ℓ} (test : A → Bool) (xs : List A) (y : A) → find test xs ≡ some y → test y ≡ true
find-true test [] y h = cc
find-true test (x ∷ xs) y h = at_head (test x) refl h (λ g. find-true test xs y g)
  where
    at_head :
        (b : Bool)
        → test x ≡ b
        → (if b then some x else find test xs) ≡ some y
        → (find test xs ≡ some y → test y ≡ true)
        → test y ≡ true
    at_head true e g rest = subst (λ z. test z ≡ true) (some_inj.0 g) e
    at_head false e g rest = rest g

abbrev pub Member : {A : Type 0} → A → List A → Type 0
Member a [] = ⊥
Member a (x ∷ xs) = (a ≡ x) ⊎ Member a xs

pub find-Member :
    {A : Type 0} (test : A → Bool) (xs : List A) (y : A) → find test xs ≡ some y → Member y xs
find-Member test [] y h = cc
find-Member test (x ∷ xs) y h = at_head (test x) h (λ g. find-Member test xs y g)
  where
    at_head :
        (b : Bool)
        → (if b then some x else find test xs) ≡ some y
        → (find test xs ≡ some y → Member y xs)
        → Member y (x ∷ xs)
    at_head true g rest = inl (some_inj.0 (sym g))
    at_head false g rest = inr (rest g)
