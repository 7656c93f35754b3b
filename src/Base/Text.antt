-- ===== src/Base/Text.antt =====
-- Equality of texts, and membership in a list of texts.
use Prim.Native.String.{String}
use mathlib.Core.Path.{◌≡◌, refl}
use mathlib.Core.Bool.{Bool, true, false, ◌||◌}
use mathlib.Core.List.{List, [], ◌∷◌, ◌++◌}
use text.Mathlib.TextEquality.{eq_iff}
use native.Mathlib.Omega.{arith}
use text.Mathlib.Text
use Prim.Native.String

-- `a == b` on texts.
infix 50 ◌==◌
abbrev pub ◌==◌ : String → String → Bool
a == b = Text.◌==◌ a b

-- `a in xs`
abbrev pub elem : String → List String → Bool
elem a [] = false
elem a (x ∷ xs) = a == x || elem a xs

pub ==_refl : (a : String) → (a == a) ≡ true
==_refl a = (eq_iff a a).1 refl

pub elem-append : (a : String) (xs ys : List String) → elem a (xs ++ ys) ≡ (elem a xs || elem a ys)
elem-append a [] ys = refl
elem-append a (x ∷ xs) ys = ground (arith, elem-append a xs ys)

-- `f"{a}{b}"`
abbrev pub joined : String → String → String
joined a b = String.◌++◌ a b
