-- ===== src/Evaluation/Pareto.antt =====
-- The Pareto frontier (src/neuroforge/evaluation/pareto.py). The metrics of a point are a function: the
-- source reads them only at the keys of `directions`, and a point that lacks one raises KeyError.
pub mod Order
pub mod Frontier
use neuro_forge.Base.{
  String, Bool, true, false, not, ◌&&◌, ◌||◌, List, [], ◌∷◌, map, keep, ◌==◌, if◌then◌else◌,
}
use neuro_forge.Base.Float
use neuro_forge.Base.Float.{Floats}
use neuro_forge.Promotion.Safety.{is_empty}

pub data Direction : Type 0 where
  maximize minimize : Direction

abbrev pub Directions : Type 0
Directions = List (String × Direction)

pub record ParetoPoint (F : Type 0) : Type 0 where
  pub candidate_id : String
  pub metrics : String → F

pub record ParetoResult : Type 0 where
  pub candidate_id : String
  pub is_pareto_optimal : Bool
  pub dominated_by : List String

module _ (fl : Floats) where
  open fl use {F, ltb}

  unfoldable pub better : Direction → F → F → Bool
  better maximize av bv = ltb bv av
  better minimize av bv = ltb av bv

  unfoldable pub no_worse : Direction → F → F → Bool
  no_worse maximize av bv = Float.leb fl bv av
  no_worse minimize av bv = Float.leb fl av bv

  -- The loop of `_dominates`; it breaks at the first objective on which `a` is worse.
  unfoldable pub dominates_from : Bool → (String → F) → (String → F) → Directions → Bool
  dominates_from strictly a b [] = strictly
  dominates_from strictly a b ((key, d) ∷ ds) =
      let rest = dominates_from (strictly || better d (a key) (b key)) a b ds in
      if not (no_worse d (a key) (b key)) then false else rest

  unfoldable pub dominates : (String → F) → (String → F) → Directions → Bool
  dominates a b ds = dominates_from false a b ds

  abbrev pub dominates_point : Directions → ParetoPoint F → ParetoPoint F → Bool
  dominates_point ds p other =
      not (other.candidate_id == p.candidate_id) && dominates other.metrics p.metrics ds

  unfoldable pub dominators : List (ParetoPoint F) → Directions → ParetoPoint F → List String
  dominators points ds p = map (λ o. o.candidate_id) (keep (dominates_point ds p) points)

  unfoldable pub pareto_result : List (ParetoPoint F) → Directions → ParetoPoint F → ParetoResult
  pareto_result points ds p =
      let found = dominators points ds p in
      record {
        candidate_id = p.candidate_id;
        is_pareto_optimal = is_empty found;
        dominated_by = found;
      }

  unfoldable pub pareto_frontier : List (ParetoPoint F) → Directions → List ParetoResult
  pareto_frontier points ds = map (pareto_result points ds) points
