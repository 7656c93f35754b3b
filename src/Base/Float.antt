-- ===== src/Base/Float.antt =====
-- Python's floats, which the program computes with and does not implement: a type with its operations
-- and comparisons. What the program relies on of them is the record of laws, each named where it is
-- used. The laws speak of finite numbers: no NaN, no infinity and no underflow to zero.
pub mod Fixed
use Prim.Native.Nat.{ℕ, suc}
use mathlib.Core.Path.{◌≡◌, sym, subst}
use mathlib.Core.Logic.{inl, inr}
use mathlib.Core.Bool.{Bool, true, false, not}
use mathlib.Core.List.{List, [], ◌∷◌}
use neuro_forge.Base.Tests.{if◌then◌else◌, Bool-cases}
use neuro_forge.Base.Lists.{length}

pub record Floats : Type 1 where
  pub F : Type 0
  -- The literal m · 10⁻ᵈ, as in `dec 62 2` for 0.62.
  pub dec : ℕ → ℕ → F
  pub add : F → F → F
  pub sub : F → F → F
  pub mul : F → F → F
  pub div : F → F → F
  pub neg : F → F
  pub ltb : F → F → Bool
  -- `round(x, n)`
  pub round_to : ℕ → F → F

module _ (fl : Floats) where
  open fl use {F, dec, add, sub, neg, ltb, div}

  abbrev pub f_zero : F
  f_zero = dec 0 0

  abbrev pub f_one : F
  f_one = dec 1 0

  -- `a <= b`, for numbers that are not NaN.
  abbrev pub leb : F → F → Bool
  leb a b = not (ltb b a)

  -- `min(a, b)` and `max(a, b)` return their first argument unless the second is beyond it.
  abbrev pub min : F → F → F
  min a b = if ltb b a then b else a

  abbrev pub max : F → F → F
  max a b = if ltb a b then b else a

  abbrev pub abs : F → F
  abs a = if ltb a f_zero then neg a else a

  -- `sum(xs)` adds from the left, from 0.
  abbrev pub sum_from : F → List F → F
  sum_from acc [] = acc
  sum_from acc (x ∷ xs) = sum_from (add acc x) xs

  abbrev pub sum : List F → F
  sum xs = sum_from f_zero xs

  abbrev pub of_nat : ℕ → F
  of_nat n = dec n 0

  -- `len(xs)`, where a float is computed from it.
  abbrev pub float_of_length {ℓ} : {A : Type ℓ} → List A → F
  float_of_length xs = of_nat (length xs)

  -- The order is a strict total order, and the operations respect it.
  pub record Laws : Type 0 where
    pub lt_irrefl : (a : F) → ltb a a ≡ false
    pub lt_trans : (a b c : F) → ltb a b ≡ true → ltb b c ≡ true → ltb a c ≡ true
    pub lt_total : (a b : F) → ltb a b ≡ false → ltb b a ≡ false → a ≡ b
    -- A difference is positive exactly when it should be.
    pub sub_pos : (a b : F) → ltb f_zero (sub a b) ≡ ltb b a
    -- Adding a number that is not negative does not decrease; taking it away does not increase.
    pub add_nonneg : (a b : F) → ltb b f_zero ≡ false → ltb (add a b) a ≡ false
    pub sub_nonneg : (a b : F) → ltb b f_zero ≡ false → ltb a (sub a b) ≡ false
    pub neg_nonneg : (a : F) → ltb a f_zero ≡ true → ltb (neg a) f_zero ≡ false
    pub add_pos :
        (a b : F) → ltb f_zero a ≡ true → ltb b f_zero ≡ false → ltb f_zero (add a b) ≡ true
    pub add_pos_right :
        (a b : F) → ltb a f_zero ≡ false → ltb f_zero b ≡ true → ltb f_zero (add a b) ≡ true
    pub div_pos :
        (a b : F) → ltb f_zero a ≡ true → ltb f_zero b ≡ true → ltb f_zero (div a b) ≡ true
    -- The literals are ordered as the numbers that they write.
    pub zero-lt-nat : (n : ℕ) → ltb f_zero (of_nat (suc n)) ≡ true

module _ (fl : Floats) (laws : Laws fl) where
  open fl use {F, add, sub, neg, ltb}

  pub le_lt_trans : (a b c : F) → ltb b a ≡ false → ltb b c ≡ true → ltb a c ≡ true
  le_lt_trans a b c le lt = elim (Bool-cases (ltb a b)) [
    | inl below ↦ laws.lt_trans a b c below lt
    | inr not_below ↦ subst (λ x. ltb x c ≡ true) (sym (laws.lt_total a b not_below le)) lt
  ]

  pub lt_le_trans : (a b c : F) → ltb a b ≡ true → ltb c b ≡ false → ltb a c ≡ true
  lt_le_trans a b c lt le = elim (Bool-cases (ltb b c)) [
    | inl below ↦ laws.lt_trans a b c lt below
    | inr not_below ↦ subst (λ x. ltb a x ≡ true) (laws.lt_total b c not_below le) lt
  ]

  pub le_trans : (a b c : F) → ltb b a ≡ false → ltb c b ≡ false → ltb c a ≡ false
  le_trans a b c p q = elim (Bool-cases (ltb c a)) [
    | inl below ↦ cc (lt_le_trans c a b below p, q)
    | inr fine ↦ fine
  ]

  pub lt_asym : (a b : F) → ltb a b ≡ true → ltb b a ≡ false
  lt_asym a b lt = elim (Bool-cases (ltb b a)) [
    | inl back ↦ cc (laws.lt_trans a b a lt back, laws.lt_irrefl a)
    | inr fine ↦ fine
  ]

  pub abs_nonneg : (a : F) → ltb (abs fl a) (f_zero fl) ≡ false
  abs_nonneg a = elim (Bool-cases (ltb a (f_zero fl))) [
    | inl below ↦ rw below (laws.neg_nonneg a below)
    | inr fine ↦ rw fine fine
  ]

  pub max_zero_nonneg : (a : F) → ltb (max fl (f_zero fl) a) (f_zero fl) ≡ false
  max_zero_nonneg a = elim (Bool-cases (ltb (f_zero fl) a)) [
    | inl above ↦ rw above (lt_asym (f_zero fl) a above)
    | inr fine ↦ rw fine (laws.lt_irrefl (f_zero fl))
  ]
