-- ===== src/Evaluation/Objectives.antt =====
-- The scalar fitness of a dict of metrics (src/neuroforge/evaluation/objectives.py).
use neuro_forge.Base.{String, Bool, not, ◌&&◌, List, [], ◌∷◌, map, elem, if◌then◌else◌}
use neuro_forge.Base.Float
use neuro_forge.Base.Float.{Floats}
use neuro_forge.Evaluation.Metrics.{Metrics, get_or}
use neuro_forge.Evaluation.Pareto.{Direction, maximize, minimize}

pub record Objective (F : Type 0) : Type 0 where
  pub direction : Direction
  pub weight : F

abbrev pub ObjectiveSpec : Type 0 → Type 0
ObjectiveSpec F = List (String × Objective F)

abbrev pub quality_like : List String
quality_like =
    "quality" ∷ "faithfulness" ∷ "task_success" ∷ "tool_success" ∷ "safety_score"
    ∷ "policy_compliance" ∷ []

module _ (fl : Floats) where
  open fl use {F, dec, add, sub, mul, div, ltb, round_to}

  -- The validator `_weights_sum_to_one`.
  unfoldable pub weights_sum_to_one : ObjectiveSpec F → Bool
  weights_sum_to_one spec =
      let total = Float.sum fl (map (λ no. no.1.weight) spec) in
      Float.leb fl (dec 99 2) total && Float.leb fl total (dec 101 2)

  -- `x or 1.0`
  abbrev pub or_one : F → F
  or_one x =
      if not (ltb x (Float.f_zero fl)) && not (ltb (Float.f_zero fl) x) then Float.f_one fl else x

  unfoldable pub goodness : String → Direction → F → Metrics F → F
  goodness name maximize raw normalizers =
      let used = div raw (or_one (get_or name (Float.f_one fl) normalizers)) in
      if elem name quality_like then raw else Float.min fl (Float.f_one fl) used
  goodness name minimize raw normalizers =
      let used = div raw (or_one (get_or name (Float.f_one fl) normalizers)) in
      if elem name quality_like
      then sub (Float.f_one fl) raw
      else sub (Float.f_one fl) (Float.min fl (Float.f_one fl) used)

  unfoldable pub score_from : F → ObjectiveSpec F → Metrics F → Metrics F → F
  score_from total [] metrics normalizers = total
  score_from total ((name, o) ∷ spec) metrics normalizers =
      let raw = get_or name (Float.f_zero fl) metrics in
      score_from (add total (mul o.weight (goodness name o.direction raw normalizers))) spec metrics
        normalizers

  -- `ObjectiveSpec.score` with scales that are given and not empty, as the engine calls it.
  unfoldable pub score : ObjectiveSpec F → Metrics F → Metrics F → F
  score spec metrics normalizers =
      round_to 6 (score_from (Float.f_zero fl) spec metrics normalizers)
