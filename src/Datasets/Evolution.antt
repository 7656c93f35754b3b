-- ===== src/Datasets/Evolution.antt =====
-- How a dataset is seeded and grows (src/neuroforge/datasets/evolution.py).
use neuro_forge.Base.{
  ℕ, zero, suc, ◌+◌, ◌*◌, max, String, Bool, true, ◌&&◌, Option, none, some, List, [], ◌∷◌, ◌++◌,
  map, keep, take, length, elem, ltb as nat_ltb, leb as nat_leb, if◌then◌else◌, Result, ok, err,
}
use neuro_forge.Base.Decimal.{versioned}
use neuro_forge.Base.Float
use neuro_forge.Base.Float.{Floats}
use neuro_forge.Promotion.Safety.{is_empty}
use neuro_forge.Datasets.{Challenge, DatasetVersion}
use neuro_forge.Datasets.Holdout.{deterministic_split}

pub data DatasetError : Type 0 where
  no_valid_challenges n_too_small no_categories : DatasetError
  categories_not_found : List String → DatasetError

module _ (fl : Floats) (draw : ℕ → String → fl.F) where
  open fl use {F, dec, add, mul, div, ltb}

  unfoldable pub is_saturated : F → Bool
  is_saturated mean_search_score = Float.leb fl (dec 90 2) mean_search_score

  -- The loop of `_extend`: an id that is taken gets the suffix of the new version.
  unfoldable pub rename_taken : List String → ℕ → List (Challenge F) → List (Challenge F)
  rename_taken taken version [] = []
  rename_taken taken version (c ∷ cs) =
      let cid =
        if elem c.challenge_id taken then versioned c.challenge_id version else c.challenge_id in
      record c { challenge_id = cid } ∷ rename_taken (taken ++ cid ∷ []) version cs

  abbrev pub ids : List (Challenge F) → List String
  ids cs = map (λ c. c.challenge_id) cs

  abbrev pub split_default : List (Challenge F) → ℕ → List (Challenge F)
  split_default cs seed = deterministic_split fl draw cs seed (dec 70 2) (dec 15 2)

  -- `sum(c.difficulty for c in cs) / max(1, len(cs))`, rounded.
  abbrev pub mean_difficulty : List (Challenge F) → F
  mean_difficulty cs =
      fl.round_to 4
        (div (Float.sum fl (map (λ c. c.difficulty) cs)) (Float.of_nat fl (max 1 (length cs))))

  -- `_extend`
  unfoldable pub extend : DatasetVersion F → List (Challenge F) → ℕ → String → DatasetVersion F
  extend current new_challenges seed source =
      let new_version = current.version + 1 in
      let unique = rename_taken (ids current.challenges) new_version new_challenges in
      let combined = current.challenges ++ split_default unique seed in
      record {
        dataset_id = current.dataset_id;
        version = new_version;
        parent_version = some current.version;
        source = source;
        challenges = combined;
        difficulty_score = mean_difficulty combined;
        validated = true;
      }

  -- The domain: what it generates for a number, a range of difficulty and a seed, and what it accepts.
  module _ (generate_cases : ℕ → F × F → ℕ → List (Challenge F))
      (validate : Challenge F → Bool) where
    unfoldable pub evolve_if_saturated : DatasetVersion F → F → ℕ → ℕ → Option (DatasetVersion F)
    evolve_if_saturated current score n seed =
        let lo =
          Float.min fl (dec 95 2) (add current.difficulty_score (mul (dec 18 2) (dec 5 1))) in
        let hi = Float.min fl (Float.f_one fl) (add current.difficulty_score (dec 18 2)) in
        if is_saturated score
        then some (
            extend current (keep validate (generate_cases n (lo, hi) seed)) seed
              "benchmark_evolution")
        else none

    unfoldable pub seed_dataset : String → ℕ → ℕ → F × F → Result DatasetError (DatasetVersion F)
    seed_dataset dataset_id n seed difficulty =
        let valid = keep validate (generate_cases n difficulty seed) in
        let split = split_default valid seed in
        if is_empty valid
        then err no_valid_challenges
        else ok (record {
          dataset_id = dataset_id;
          version = 1;
          parent_version = none;
          source = "seed";
          challenges = split;
          difficulty_score = mean_difficulty split;
          validated = true;
        })

    -- The loop over `round_`, with the rounds that are left; `found` grows until it holds `n`.
    unfoldable pub collect :
        ℕ → ℕ → List String → ℕ → ℕ → List (Challenge F) → Option (List (Challenge F))
    collect zero round wanted n seed found = none
    collect (suc rounds) round wanted n seed found =
        let batch = generate_cases (max (n * 8) 16) (dec 5 1, dec 95 2) (seed + round) in
        let found' = found ++ keep (λ c. elem c.category wanted && validate c) batch in
        let rest = collect rounds (round + 1) wanted n seed found' in
        if nat_leb n (length found') then some (take n found') else rest

    unfoldable pub failure_driven_challenges :
        List String → ℕ → ℕ → Result DatasetError (List (Challenge F))
    failure_driven_challenges failing_categories n seed =
        if nat_ltb n 1
        then err n_too_small
        else if is_empty failing_categories
        then ok (generate_cases n (dec 5 1, dec 95 2) seed)
        else elim (collect 50 0 failing_categories n seed []) [
          | some found ↦ ok found
          | none ↦ err (categories_not_found failing_categories)
        ]

    unfoldable pub evolve_from_failures :
        DatasetVersion F → List String → ℕ → ℕ → Result DatasetError (DatasetVersion F)
    evolve_from_failures current failing_categories n_new seed =
        if is_empty failing_categories
        then err no_categories
        else elim (failure_driven_challenges failing_categories n_new seed) [
          | ok new_challenges ↦ ok (extend current new_challenges seed "failure_driven")
          | err e ↦ err e
        ]
