-- ===== src/Datasets/Holdout.antt =====
-- The splits and the guard of the holdout (src/neuroforge/datasets/holdout.py).
use neuro_forge.Base.{ℕ, String, List, [], ◌∷◌, ◌++◌, keep, elem, if◌then◌else◌, Result, ok, err}
use neuro_forge.Base.Float.{Floats}
use neuro_forge.Datasets.{Challenge, in_split}

module _ (fl : Floats) (draw : ℕ → String → fl.F) where
  open fl use {F, add, ltb}

  -- The ratios of train and validation; the rest is holdout.
  unfoldable pub split_name : F → F → F → String
  split_name train_r val_r r =
      if ltb r train_r
      then "train"
      else if ltb r (add train_r val_r)
      then "validation"
      else "holdout"

  unfoldable pub deterministic_split : List (Challenge F) → ℕ → F → F → List (Challenge F)
  deterministic_split [] seed train_r val_r = []
  deterministic_split (c ∷ cs) seed train_r val_r =
      record c { split = split_name train_r val_r (draw seed c.challenge_id) }
      ∷ deterministic_split cs seed train_r val_r

pub record HoldoutGuard (F : Type 0) : Type 0 where
  pub all_challenges : List (Challenge F)
  pub accessed_for : List String

-- `HoldoutViolation`
pub data HoldoutViolation : Type 0 where
  already_evaluated : String → HoldoutViolation

module _ {F : Type 0} where
  unfoldable pub search_set : HoldoutGuard F → List (Challenge F)
  search_set g = keep (in_split "train") g.all_challenges

  unfoldable pub validation_set : HoldoutGuard F → List (Challenge F)
  validation_set g = keep (in_split "validation") g.all_challenges

  unfoldable pub evaluate_holdout :
      HoldoutGuard F → String → Result HoldoutViolation (HoldoutGuard F × List (Challenge F))
  evaluate_holdout g h =
      if elem h g.accessed_for
      then err (already_evaluated h)
      else ok (
        record g { accessed_for = g.accessed_for ++ h ∷ [] },
        keep (in_split "holdout") g.all_challenges,
      )
