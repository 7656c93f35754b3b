-- ===== src/Evaluation/Examples.antt =====
-- The frontier of two points, one of which dominates the other.
use neuro_forge.Base.{String, List, ◌≡◌, ◌⊎◌, inl, refl, true, [], ◌∷◌, Member, ◌==◌, if◌then◌else◌}
use neuro_forge.Base.Int.{ℤ, pos}
use neuro_forge.Base.Float.Fixed.{fixed, fixed-Laws}
use neuro_forge.Evaluation.Pareto.{
  Directions, maximize, minimize, ParetoPoint, pareto_result, dominates,
}
use neuro_forge.Evaluation.Pareto.Frontier.{frontier_covers}

abbrev point : String → ℤ → ℤ → ParetoPoint ℤ
point name quality cost = record {
  candidate_id = name;
  metrics = λ k. if k == "quality" then quality else cost;
}

abbrev directions : Directions
directions = ("quality", maximize) ∷ ("cost_usd", minimize) ∷ []

abbrev points : List (ParetoPoint ℤ)
points = point "a" (pos 500000) (pos 900) ∷ point "b" (pos 600000) (pos 800) ∷ []

frontier_covers_example :
    (c : ParetoPoint ℤ) × Member c points
    × ((pareto_result fixed points directions c).is_pareto_optimal ≡ true)
    × ((c ≡ point "a" (pos 500000) (pos 900))
        ⊎ (dominates fixed c.metrics (point "a" (pos 500000) (pos 900)).metrics directions ≡ true))
frontier_covers_example =
    frontier_covers fixed fixed-Laws directions points (point "a" (pos 500000) (pos 900)) (inl refl)
