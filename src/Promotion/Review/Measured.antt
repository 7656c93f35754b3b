-- ===== src/Promotion/Review/Measured.antt =====
-- What the stored measurements are, and what a fresh one is (src/neuroforge/promotion/holdout.py,
-- review.py).
use neuro_forge.Base.{
  ℕ, String, Bool, true, false, Option, none, some, List, [], ◌∷◌, ◌++◌, find, ◌==◌, if◌then◌else◌,
  Returns, All, find-All, find-true, find-Member, Member, ◌≡◌, refl, subst, ◌∙◌, eq_iff, arith,
}
use mathlib.Core.Option.{some_inj}
use neuro_forge.Base.Float.{Floats}
use neuro_forge.Evaluation.Metrics.{EvaluationResult}
use neuro_forge.Evaluation.Statistics.{Numerics}
use neuro_forge.Promotion.Safety.{Side}
use neuro_forge.Promotion.Holdout.{HoldoutEvidence, measure, evaluate_on_holdout}
use neuro_forge.Datasets.{Challenge, DatasetVersion}
use neuro_forge.Datasets.Holdout.{evaluate_holdout}
use neuro_forge.Store.{HoldoutEvaluationRecord, is_measurement}
use neuro_forge.Promotion.Review.{reusable}

module _ {F : Type 0} where
  -- A measurement stands under the dataset that it was made on.
  abbrev pub IsFiled : HoldoutEvaluationRecord F → Type 0
  IsFiled r =
      (r.evidence.dataset_id ≡ r.dataset_id) × (r.evidence.dataset_version ≡ r.dataset_version)

  -- There is one measurement of a genome on a version of a dataset.
  abbrev pub OnceEach : List (HoldoutEvaluationRecord F) → Type 0
  OnceEach [] = Unit
  OnceEach (r ∷ rs) =
      (find (is_measurement r.genome_hash r.dataset_id r.dataset_version) rs ≡ none) × OnceEach rs

  find-append_none :
      (p : HoldoutEvaluationRecord F → Bool) (rs : List (HoldoutEvaluationRecord F))
      (x : HoldoutEvaluationRecord F)
      → find p rs ≡ none
      → p x ≡ false
      → find p (rs ++ x ∷ []) ≡ none
  find-append_none p [] x n e = ground arith
  find-append_none p (r ∷ rs) x n e = ground (arith, find-append_none p rs x)

  pub OnceEach-append :
      (rs : List (HoldoutEvaluationRecord F)) (x : HoldoutEvaluationRecord F)
      → find (is_measurement x.genome_hash x.dataset_id x.dataset_version) rs ≡ none
      → OnceEach rs
      → OnceEach (rs ++ x ∷ [])
  OnceEach-append [] x n o = (refl, tt)
  OnceEach-append (r ∷ rs) x n o = (
    find-append_none _ rs x o.0 (
        ground (
          arith,
          n,
          eq_iff r.genome_hash x.genome_hash,
          eq_iff x.genome_hash r.genome_hash,
          eq_iff r.dataset_id x.dataset_id,
          eq_iff x.dataset_id r.dataset_id,
        )),
    OnceEach-append rs x (ground (arith, n)) o.1,
  )

  -- Evidence that was measured with a baseline on a dataset.
  abbrev pub IsMeasured : String → DatasetVersion F → HoldoutEvidence F → Type 0
  IsMeasured baseline dataset ev =
      (ev.baseline_hash ≡ baseline)
      × (ev.dataset_id ≡ dataset.dataset_id)
      × (ev.dataset_version ≡ dataset.version)

  pub reusable-IsMeasured :
      (baseline : String) (dataset : DatasetVersion F) (h : String)
      (rs : List (HoldoutEvaluationRecord F)) (o : Option (HoldoutEvaluationRecord F))
      (ev : HoldoutEvidence F)
      → All IsFiled rs
      → find (is_measurement h dataset.dataset_id dataset.version) rs ≡ o
      → reusable o baseline ≡ some ev
      → IsMeasured baseline dataset ev
  unfolding reusable
  reusable-IsMeasured baseline dataset h rs none ev filed found e = cc
  reusable-IsMeasured baseline dataset h rs (some r) ev filed found e =
      by_baseline (r.evidence.baseline_hash == baseline) refl e
        (find-All IsFiled _ rs r found filed)
        (find-true (is_measurement h dataset.dataset_id dataset.version) rs r found)
    where
      by_baseline :
          (b : Bool)
          → (r.evidence.baseline_hash == baseline) ≡ b
          → (if b then some r.evidence else none) ≡ some ev
          → IsFiled r
          → is_measurement h dataset.dataset_id dataset.version r ≡ true
          → IsMeasured baseline dataset ev
      by_baseline true same g own key = subst (IsMeasured baseline dataset) (some_inj.0 g) (
        (eq_iff r.evidence.baseline_hash baseline).0 same,
        own.0 ∙ ground (arith, key, eq_iff r.dataset_id dataset.dataset_id),
        own.1 ∙ ground (arith, key),
      )
      by_baseline false other g own key = cc

  -- Evidence that is stored for a genome on a version of a dataset.
  pub data IsStored (h : String) (dataset : DatasetVersion F)
      (rs : List (HoldoutEvaluationRecord F)) (ev : HoldoutEvidence F) : Type 0 where
    stored_row :
        (r : HoldoutEvaluationRecord F)
        → Member r rs
        → r.genome_hash ≡ h
        → r.dataset_id ≡ dataset.dataset_id
        → r.dataset_version ≡ dataset.version
        → r.evidence ≡ ev
        → IsStored h dataset rs ev

  pub reusable-IsStored :
      (baseline : String) (dataset : DatasetVersion F) (h : String)
      (rs : List (HoldoutEvaluationRecord F)) (o : Option (HoldoutEvaluationRecord F))
      (ev : HoldoutEvidence F)
      → find (is_measurement h dataset.dataset_id dataset.version) rs ≡ o
      → reusable o baseline ≡ some ev
      → IsStored h dataset rs ev
  unfolding reusable
  reusable-IsStored baseline dataset h rs none ev found e = cc
  reusable-IsStored baseline dataset h rs (some r) ev found e =
      stored_row r (find-Member _ rs r found) (ground (arith, key, eq_iff r.genome_hash h))
        (ground (arith, key, eq_iff r.dataset_id dataset.dataset_id)) (ground (arith, key))
        (by_baseline (r.evidence.baseline_hash == baseline) e)
    where
      key : is_measurement h dataset.dataset_id dataset.version r ≡ true
      key = find-true (is_measurement h dataset.dataset_id dataset.version) rs r found

      by_baseline : (b : Bool) → (if b then some r.evidence else none) ≡ some ev → r.evidence ≡ ev
      by_baseline true g = some_inj.0 g
      by_baseline false g = cc

module _ (fl : Floats) (np : Numerics fl) (bound : List fl.F → Side → fl.F → ℕ → fl.F) where
  open fl use {F}

  pub evaluate_on_holdout-IsMeasured :
      (evaluate : String → Challenge F → EvaluationResult F) (baseline candidate : String)
      (dataset : DatasetVersion F) (confidence least : F) (seed : ℕ)
      → Returns (IsMeasured baseline dataset) (
          evaluate_on_holdout fl np bound evaluate baseline candidate dataset confidence least seed)
  unfolding evaluate_on_holdout measure evaluate_holdout
  evaluate_on_holdout-IsMeasured evaluate baseline candidate dataset confidence least seed =
      ground arith
