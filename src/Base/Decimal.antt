-- ===== src/Base/Decimal.antt =====
-- `str(n)` of a number that is not negative, and texts that end in one.
use Prim.Native.Nat.{ℕ, zero, suc, ◌/◌, ◌%◌}
use Prim.Native.String.{String, ◌++◌}
use mathlib.Core.Path.{◌≡◌}
use mathlib.Core.List.{List, [], ◌∷◌}
use text.Mathlib.TextLemmas.{append_cancel_right}
use neuro_forge.Base.Tests.{nat_eq, if◌then◌else◌}

digit_of : List String → ℕ → String
digit_of [] n = ""
digit_of (d ∷ ds) zero = d
digit_of (d ∷ ds) (suc n) = digit_of ds n

digit : ℕ → String
unfolding digit_of
digit n = digit_of ("0" ∷ "1" ∷ "2" ∷ "3" ∷ "4" ∷ "5" ∷ "6" ∷ "7" ∷ "8" ∷ "9" ∷ []) n

-- The digits of `n` before `acc`; the fuel is above `n`.
print_from : ℕ → ℕ → String → String
unfolding digit
print_from zero n acc = acc
print_from (suc fuel) n acc =
    let acc' = digit (n % 10) ++ acc in
    let rest = print_from fuel (n / 10) acc' in if nat_eq (n / 10) 0 then acc' else rest

unfoldable pub decimal : ℕ → String
unfolding print_from
decimal n = print_from (suc n) n ""

-- `f"{cid}-v{version}"`
unfoldable pub versioned : String → ℕ → String
versioned cid version = cid ++ ("-v" ++ decimal version)

pub versioned_inj : (a b : String) (n : ℕ) → versioned a n ≡ versioned b n → a ≡ b
unfolding versioned
versioned_inj a b n e = append_cancel_right a b ("-v" ++ decimal n) e
