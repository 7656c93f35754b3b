-- ===== src/Promotion/Review.antt =====
-- The review of a candidate (src/neuroforge/promotion/review.py). A session is one step, so the
-- insertion of a measurement never meets another one, and the branch for that is left out. A genome is
-- named by its hash; the domain's evaluation, the bootstrap and the numbers that a stored config holds
-- are parameters.
pub mod Measured
pub mod Sound
pub mod Examples
use neuro_forge.Base.{
  ℕ, zero, suc, String, Bool, true, false, not, Option, none, some, List, ◌==◌, if◌then◌else◌,
  Result, ok, err, ◌>>=◌, ◌>>◌, raise_if, or_raise, is_some,
}
use mathlib.Core.Option
use neuro_forge.Base.Float.{Floats}
use neuro_forge.Genomes.{PromotionStatus}
use neuro_forge.Evaluation.Metrics.{EvaluationResult}
use neuro_forge.Evaluation.Statistics.{Numerics}
use neuro_forge.Promotion.Safety.{SafetyConstraints, Side}
use neuro_forge.Promotion.Gates.{PromotionGateConfig, PromotionDecision}
use neuro_forge.Promotion.Holdout.{
  HoldoutEvidence, EvidenceError, decide_from_evidence, evaluate_on_holdout,
}
use neuro_forge.Datasets.{Challenge, DatasetVersion}
use neuro_forge.Db.{
  GenomeRecord, StoredConfig, StoredResult, ExperimentRecord, PromotionRecord, Session,
  get_genome_record, get_experiment, save_promotion_decision,
}
use neuro_forge.Store.{
  Store, HoldoutEvaluationRecord, id_or_default, get_dataset_version, latest_dataset_version,
  get_holdout_evaluation, save_holdout_evaluation,
}

-- The messages of `ReviewError`.
pub data ReviewError : Type 0 where
  no_completed_result : String → ReviewError
  dataset_not_found : String → ReviewError
  unknown_candidate : String → ReviewError
  other_application : String → String → String → ReviewError
  not_measured : EvidenceError → ReviewError

pub record PromotionReview (F : Type 0) : Type 0 where
  pub decision : PromotionDecision F
  pub evidence : HoldoutEvidence F
  pub holdout_reused : Bool

-- The part of a stored config that is made of floats, with its seed.
pub record ReviewSettings (F : Type 0) : Type 0 where
  pub confidence : F
  pub min_relative_improvement : F
  pub seed : ℕ
  pub promotion_gates : PromotionGateConfig F
  pub safety_constraints : SafetyConstraints F

-- `result.get("dataset_id") or config.dataset_id or f"{application_id}-dataset"`
unfoldable pub reviewed_dataset_id : ExperimentRecord → StoredResult → String
reviewed_dataset_id e r = elim r.dataset_id [
  | none ↦ id_or_default e.config.dataset_id e.application_id
  | some t ↦ if t == "" then id_or_default e.config.dataset_id e.application_id else t
]

module _ {F : Type 0} where
  -- Version 0, like none, stands for the latest.
  unfoldable pub version_or_latest : Store F → String → Option ℕ → Option (DatasetVersion F)
  version_or_latest st dataset_id none = latest_dataset_version st dataset_id
  version_or_latest st dataset_id (some zero) = latest_dataset_version st dataset_id
  version_or_latest st dataset_id (some (suc v)) = get_dataset_version st dataset_id (suc v)

  -- A measurement is used again for the baseline that it was made with.
  unfoldable pub reusable : Option (HoldoutEvaluationRecord F) → String → Option (HoldoutEvidence F)
  reusable none baseline = none
  reusable (some r) baseline =
      if r.evidence.baseline_hash == baseline then some r.evidence else none

  abbrev pub measured_or_raise :
      Result EvidenceError (HoldoutEvidence F) → Result ReviewError (HoldoutEvidence F)
  measured_or_raise (ok ev) = ok ev
  measured_or_raise (err e) = err (not_measured e)

  -- What is stored of a decision.
  abbrev pub decision_row : String → String → PromotionDecision F → PromotionRecord
  decision_row h experiment_id d = record {
    genome_hash = h;
    experiment_id = some experiment_id;
    approved = d.approved;
    next_status = d.next_status;
  }

module _ (fl : Floats) (np : Numerics fl) (bound : List fl.F → Side → fl.F → ℕ → fl.F)
    (evaluate : String → String → Challenge fl.F → EvaluationResult fl.F)
    (settings : String → ReviewSettings fl.F) where
  open fl use {F}

  -- A fresh measurement is stored unless there is one already.
  unfoldable pub stored_or :
      Option (HoldoutEvaluationRecord F) → Store F → String → String → HoldoutEvidence F → Store F
  stored_or (some r) st h experiment_id ev = st
  stored_or none st h experiment_id ev = save_holdout_evaluation st h (some experiment_id) ev

  -- The evidence, whether it was there before, and the store with it.
  unfoldable pub evidence_for :
      Store F
      → ExperimentRecord
      → String
      → String
      → DatasetVersion F
      → Option (HoldoutEvaluationRecord F)
      → Option (HoldoutEvidence F)
      → Result ReviewError (Store F × HoldoutEvidence F)
  evidence_for st e baseline h dataset stored (some ev) = ok (st, ev)
  evidence_for st e baseline h dataset stored none =
      let own = settings e.experiment_id in
      measured_or_raise (
        evaluate_on_holdout fl np bound (evaluate e.config.domain_name) baseline h dataset
          own.confidence own.min_relative_improvement own.seed)
      >>= λ ev. ok (stored_or stored st h e.experiment_id ev, ev)

  -- The verdict is stored, and returned with its evidence.
  unfoldable pub conclude_review :
      Store F → ExperimentRecord → String → HoldoutEvidence F → Bool → Store F × PromotionReview F
  conclude_review st e h evidence reused =
      let own = settings e.experiment_id in
      let decision =
        decide_from_evidence fl evidence h own.promotion_gates own.safety_constraints in
      (
        record st {
          session = save_promotion_decision st.session (decision_row h e.experiment_id decision);
        },
        record { decision = decision; evidence = evidence; holdout_reused = reused },
      )

  -- The review once the dataset is known.
  unfoldable pub review_on :
      Store F
      → ExperimentRecord
      → String
      → StoredResult
      → DatasetVersion F
      → Result ReviewError (Store F × PromotionReview F)
  review_on st e h result dataset = do
    candidate ← or_raise (get_genome_record st.session h) (unknown_candidate h)
    raise_if (not (candidate.system_id == e.application_id))
        (other_application h candidate.system_id e.application_id)
    let stored = get_holdout_evaluation st h dataset.dataset_id dataset.version
    let again = reusable stored result.baseline_genome
    found ← evidence_for st e result.baseline_genome h dataset stored again
    ok (conclude_review found.0 e h found.1 (is_some again))

  -- The review of a genome for an experiment with a result.
  unfoldable pub review_result :
      Store F
      → ExperimentRecord
      → String
      → StoredResult
      → Result ReviewError (Store F × PromotionReview F)
  review_result st e h result = do
    let dataset_id = reviewed_dataset_id e result
    dataset ←
        or_raise (version_or_latest st dataset_id result.dataset_version)
          (dataset_not_found dataset_id)
    review_on st e h result dataset

  unfoldable pub review_promotion :
      Store F → String → String → Result ReviewError (Store F × PromotionReview F)
  review_promotion st experiment_id h = do
    e ← or_raise (get_experiment st.session experiment_id) (no_completed_result experiment_id)
    result ← or_raise e.result (no_completed_result experiment_id)
    review_result st e h result
