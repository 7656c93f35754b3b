-- ===== src/Datasets/Examples.antt =====
-- A dataset of three challenges that grows by two, one of which has an id that is taken.
use neuro_forge.Base.{
  ℕ, String, List, ◌≡◌, refl, true, none, [], ◌∷◌, ◌++◌, keep, Distinct, ◌==◌, if◌then◌else◌,
}
use neuro_forge.Base.Decimal.{decimal, versioned}
use neuro_forge.Base.Int.{ℤ, pos}
use neuro_forge.Base.Float.Fixed.{fixed}
use neuro_forge.Datasets.{Challenge, DatasetVersion, in_split, split_of}
use neuro_forge.Datasets.Evolution.{rename_taken, ids, split_default, extend}
use neuro_forge.Datasets.Guarded.{served, served-Distinct}
use neuro_forge.Datasets.Growth.{extend-Distinct, split_of-extend}

abbrev draw : ℕ → String → ℤ
draw seed name = if name == "fs-1" then pos 100000 else pos 900000

abbrev challenge : String → String → Challenge ℤ
challenge name split = record {
  challenge_id = name;
  category = "billing";
  difficulty = pos 300000;
  split = split;
}

abbrev first_version : DatasetVersion ℤ
first_version = record {
  dataset_id = "forge-dataset";
  version = 1;
  parent_version = none;
  source = "seed";
  challenges =
      challenge "fs-1" "train" ∷ challenge "fs-2" "validation" ∷ challenge "fs-3" "holdout" ∷ [];
  difficulty_score = pos 300000;
  validated = true;
}

abbrev more : List (Challenge ℤ)
more = challenge "fs-1" "train" ∷ challenge "fs-4" "train" ∷ []

served-Distinct_example : Distinct (
    served
      (record { all_challenges = first_version.challenges; accessed_for = [] })
      ("g" ∷ "h" ∷ "g" ∷ []))
served-Distinct_example =
    served-Distinct (record { all_challenges = first_version.challenges; accessed_for = [] })
      ("g" ∷ "h" ∷ "g" ∷ [])

split_of-extend_example :
    split_of (extend fixed draw first_version more 7 "failure_driven") "holdout"
    ≡ split_of first_version "holdout"
      ++ keep (in_split "holdout") (
          split_default fixed draw
            (rename_taken fixed draw (ids fixed draw first_version.challenges) 2 more)
            7)
split_of-extend_example = split_of-extend fixed draw first_version more 7 "failure_driven" "holdout"

extend-Distinct_example :
    Distinct (ids fixed draw (extend fixed draw first_version more 7 "failure_driven").challenges)
unfolding versioned decimal
extend-Distinct_example =
    extend-Distinct fixed draw first_version more 7 "failure_driven" (refl, (refl, (refl, tt)))
      (refl, (refl, tt)) (refl, (refl, tt))
