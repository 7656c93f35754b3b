-- ===== src/Base/Unique.antt =====
-- Lists of texts in which nothing is repeated.
use Prim.Native.String.{String}
use mathlib.Core.Path.{◌≡◌, refl}
use mathlib.Core.Bool.{Bool, false, not}
use mathlib.Core.List.{List, [], ◌∷◌, ◌++◌}
use text.Mathlib.TextEquality.{eq_iff}
use native.Mathlib.Omega.{arith}
use neuro_forge.Base.Text.{◌==◌, elem, elem-append}
use neuro_forge.Base.Lists.{keep}

abbrev pub Distinct : List String → Type 0
Distinct [] = Unit
Distinct (x ∷ xs) = (elem x xs ≡ false) × Distinct xs

-- `k != h`
abbrev pub differs : String → String → Bool
differs h k = not (k == h)

pub elem-keep_self : (h : String) (xs : List String) → elem h (keep (differs h) xs) ≡ false
elem-keep_self h [] = refl
elem-keep_self h (x ∷ xs) = ground (arith, elem-keep_self h xs, eq_iff x h, eq_iff h x)

pub elem-keep-false :
    (h k : String) (xs : List String) → elem k xs ≡ false → elem k (keep (differs h) xs) ≡ false
elem-keep-false h k [] e = refl
elem-keep-false h k (x ∷ xs) e = ground (arith, elem-keep-false h k xs)

pub elem-keep_ne :
    (h k : String) (xs : List String) → (k == h) ≡ false → elem k (keep (differs h) xs) ≡ elem k xs
elem-keep_ne h k [] e = refl
elem-keep_ne h k (x ∷ xs) e =
    ground (arith, elem-keep_ne h k xs, eq_iff x h, eq_iff k h, eq_iff k x)

pub keep-Distinct : (h : String) (xs : List String) → Distinct xs → Distinct (keep (differs h) xs)
keep-Distinct h [] d = tt
keep-Distinct h (x ∷ xs) d = ground (arith, keep-Distinct h xs d.1, elem-keep-false h x xs d.0)

pub keep_absent : (h : String) (xs : List String) → elem h xs ≡ false → keep (differs h) xs ≡ xs
keep_absent h [] e = refl
keep_absent h (x ∷ xs) e = ground (arith, keep_absent h xs, eq_iff x h, eq_iff h x)

pub append-Distinct :
    (h : String) (xs : List String) → elem h xs ≡ false → Distinct xs → Distinct (xs ++ h ∷ [])
append-Distinct h [] e d = (refl, tt)
append-Distinct h (x ∷ xs) e d =
    ground (arith, append-Distinct h xs, elem-append x xs (h ∷ []), eq_iff x h, eq_iff h x)

-- The last element of a list without repetition is removed alone.
pub keep-last :
    (h : String) (xs : List String) → Distinct (xs ++ h ∷ []) → keep (differs h) (xs ++ h ∷ []) ≡ xs
keep-last h [] d = ground (arith, eq_iff h h)
keep-last h (x ∷ xs) d =
    ground (arith, keep-last h xs, elem-append x xs (h ∷ []), eq_iff x h, eq_iff h x)
