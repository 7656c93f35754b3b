-- ===== src/Base/Float/Fixed.antt =====
-- A fixed-point arithmetic, in millionths, that meets the laws: sums and differences are exact, a
-- quotient is rounded away from zero.
use Prim.Native.Nat.{ℕ, zero, suc, ◌+◌, ◌*◌, ◌/◌, ◌^◌, ◌<◌}
use mathlib.Core.Path.{◌≡◌}
use mathlib.Core.Bool.{true}
use native.Mathlib.Omega.{arith}
use native.Mathlib.Nat.{le-div_iff_mul-le, div-eq_of_lt}
use neuro_forge.Base.Int.{ℤ, pos, negsuc, pos_part, neg_part, sub_ℕ, ◌+ℤ◌, ◌-ℤ◌, ltb_ℤ}
use neuro_forge.Base.Float.{Floats, Laws}

abbrev scale : ℕ
scale = 1000000

abbrev div_ℤ : ℤ → ℤ → ℤ
div_ℤ a (pos zero) = pos 0
div_ℤ a (pos (suc n)) = sub_ℕ ((pos_part a * scale + n) / suc n) ((neg_part a * scale + n) / suc n)
div_ℤ a (negsuc n) = sub_ℕ ((neg_part a * scale + n) / suc n) ((pos_part a * scale + n) / suc n)

abbrev mul_ℤ : ℤ → ℤ → ℤ
mul_ℤ a b =
    sub_ℕ ((pos_part a * pos_part b + neg_part a * neg_part b) / scale)
      ((pos_part a * neg_part b + neg_part a * pos_part b) / scale)

abbrev pub fixed : Floats
fixed = record {
  F = ℤ;
  dec = λ m d. pos (m * scale / 10 ^ d);
  add = ◌+ℤ◌;
  sub = ◌-ℤ◌;
  mul = mul_ℤ;
  div = div_ℤ;
  neg = λ a. pos 0 -ℤ a;
  ltb = ltb_ℤ;
  round_to = λ n a. a;
}

ceiling_pos : (m n : ℕ) → 0 < m → 0 < (m * scale + n) / suc n
ceiling_pos m n h = (le-div_iff_mul-le {x = 1} (omega arith)).1 (omega arith)

ceiling_zero : (n : ℕ) → (0 * scale + n) / suc n ≡ 0
ceiling_zero n = div-eq_of_lt (omega arith)

div_ℤ_pos :
    (a b : ℤ) → ltb_ℤ (pos 0) a ≡ true → ltb_ℤ (pos 0) b ≡ true → ltb_ℤ (pos 0) (div_ℤ a b) ≡ true
div_ℤ_pos a (pos zero) h k = ground arith
div_ℤ_pos (pos m) (pos (suc n)) h k = rw (ceiling_zero n) (ground (arith, ceiling_pos m n))
div_ℤ_pos (negsuc m) (pos (suc n)) h k = ground arith
div_ℤ_pos a (negsuc n) h k = ground arith

pub fixed-Laws : Laws fixed
unfolding ◌+ℤ◌ ◌-ℤ◌
fixed-Laws = record {
  lt_irrefl = λ a. ground arith;
  lt_trans = λ a b c p q. ground arith;
  lt_total = λ a b p q. ground arith;
  sub_pos = λ a b. ground arith;
  add_nonneg = λ a b p. ground arith;
  sub_nonneg = λ a b p. ground arith;
  neg_nonneg = λ a p. ground arith;
  add_pos = λ a b p q. ground arith;
  add_pos_right = λ a b p q. ground arith;
  div_pos = div_ℤ_pos;
  zero-lt-nat = λ n. ground arith;
}
