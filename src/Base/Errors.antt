-- ===== src/Base/Errors.antt =====
-- A call that may raise: `E` is the type of what it raises.
use mathlib.Core.Bool.{Bool, true, false}
use mathlib.Core.Path.{◌≡◌, refl, subst}
use mathlib.Core.Option.{Option, none, some}

pub data Result {ℓ κ} (E : Type ℓ) (A : Type κ) : Type (ℓ ⊔ κ) where
  ok : A → Result E A
  err : E → Result E A

infixl 5 ◌>>=◌ ◌>>◌
abbrev pub ◌>>=◌ {ℓ κ ι} :
    {E : Type ℓ} {A : Type κ} {B : Type ι} → Result E A → (A → Result E B) → Result E B
ok a >>= f = f a
err e >>= f = err e

abbrev pub ◌>>◌ {ℓ κ} : {E : Type ℓ} {B : Type κ} → Result E (Unit {0}) → Result E B → Result E B
m >> k = m >>= λ _. k

-- `if c: raise e`
abbrev pub raise_if {ℓ} : {E : Type ℓ} → Bool → E → Result E (Unit {0})
raise_if true e = err e
raise_if false e = ok tt

abbrev pub is_ok {ℓ κ} : {E : Type ℓ} {A : Type κ} → Result E A → Bool
is_ok (ok a) = true
is_ok (err e) = false

pub ok_of_is_ok {ℓ κ} :
    {E : Type ℓ} {A : Type κ} (r : Result E A) → is_ok r ≡ true → (a : A) × (r ≡ ok a)
ok_of_is_ok (ok a) h = (a, refl)
ok_of_is_ok (err e) h = cc

-- `if a is None: raise e`
abbrev pub or_raise {ℓ κ} : {E : Type ℓ} {A : Type κ} → Option A → E → Result E A
or_raise none e = err e
or_raise (some a) e = ok a

-- What a call returns, if it does not raise, has a property.
abbrev pub Returns {ℓ κ ι} : {E : Type ℓ} {A : Type κ} → (A → Type ι) → Result E A → Type ι
Returns P (ok a) = P a
Returns P (err e) = Unit

-- A call returns, and what it returns has a property.
abbrev pub Succeeds {ℓ κ} : {E : Type ℓ} {A : Type κ} → (A → Type 0) → Result E A → Type 0
Succeeds P (ok a) = P a
Succeeds P (err e) = ⊥

pub Returns-ok {ℓ κ ι} :
    {E : Type ℓ} {A : Type κ} (P : A → Type ι) (m : Result E A) (a : A)
    → m ≡ ok a
    → Returns P m
    → P a
Returns-ok P m a e p = subst (Returns P) e p

pub Returns-raise_if {ℓ κ ι} :
    {E : Type ℓ} {B : Type κ} (P : B → Type ι) (b : Bool) (e : E) (k : Result E B)
    → (b ≡ false → Returns P k)
    → Returns P (raise_if b e >> k)
Returns-raise_if P true e k h = tt
Returns-raise_if P false e k h = h refl

module _ {ℓ κ ι μ} {E : Type ℓ} {A : Type κ} {B : Type ι} (P : B → Type μ) where
  pub Returns-bind {ν} :
      (Q : A → Type ν) (m : Result E A) (f : A → Result E B)
      → Returns Q m
      → ((a : A) → Q a → Returns P (f a))
      → Returns P (m >>= f)
  Returns-bind Q (ok a) f q h = h a q
  Returns-bind Q (err e) f q h = tt

  pub Returns-bind_eq :
      (m : Result E A) (f : A → Result E B)
      → ((a : A) → m ≡ ok a → Returns P (f a))
      → Returns P (m >>= f)
  Returns-bind_eq (ok a) f h = h a refl
  Returns-bind_eq (err e) f h = tt

  -- `a = ...` and `if a is None: raise e`
  pub Returns-or_raise :
      (o : Option A) (e : E) (f : A → Result E B)
      → ((a : A) → o ≡ some a → Returns P (f a))
      → Returns P (or_raise o e >>= f)
  Returns-or_raise (some a) e f h = h a refl
  Returns-or_raise none e f h = tt

  pub Returns-bind_any :
      (m : Result E A) (f : A → Result E B) → ((a : A) → Returns P (f a)) → Returns P (m >>= f)
  Returns-bind_any (ok a) f h = h a
  Returns-bind_any (err e) f h = tt
