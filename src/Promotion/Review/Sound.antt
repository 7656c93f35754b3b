-- ===== src/Promotion/Review/Sound.antt =====
-- What a review has found when it returns (src/neuroforge/promotion/review.py).
use neuro_forge.Base.{
  ℕ, String, Bool, true, false, not, Option, none, some, List, find, ◌==◌, Result, ok, err, ◌>>=◌,
  ◌>>◌, raise_if, or_raise, is_some, Returns, All-append, All, ◌≡◌, refl, eq_iff,
}
use neuro_forge.Base.Float.{Floats}
use neuro_forge.Evaluation.Metrics.{EvaluationResult}
use neuro_forge.Evaluation.Statistics.{Numerics}
use neuro_forge.Promotion.Safety.{Side}
use neuro_forge.Promotion.Gates.{PromotionDecision}
use neuro_forge.Promotion.Holdout.{
  HoldoutEvidence, EvidenceError, decide_from_evidence, evaluate_on_holdout,
}
use neuro_forge.Datasets.{Challenge, DatasetVersion}
use neuro_forge.Db.{
  GenomeRecord, StoredResult, ExperimentRecord, get_genome_record, get_experiment,
  latest_promotion_decision,
}
use neuro_forge.Db.Laws.{latest-save_promotion_decision}
use neuro_forge.Store.{
  Store, HoldoutEvaluationRecord, is_measurement, get_holdout_evaluation, save_holdout_evaluation,
}
use neuro_forge.Promotion.Review.{
  ReviewError, no_completed_result, dataset_not_found, unknown_candidate, other_application,
  PromotionReview, ReviewSettings, reviewed_dataset_id, version_or_latest, reusable,
  measured_or_raise, decision_row, stored_or, evidence_for, conclude_review, review_on,
  review_result, review_promotion,
}
use neuro_forge.Promotion.Review.Measured.{
  IsFiled, OnceEach, OnceEach-append, IsMeasured, reusable-IsMeasured, IsStored, reusable-IsStored,
  evaluate_on_holdout-IsMeasured,
}

module _ (fl : Floats) (np : Numerics fl) (bound : List fl.F → Side → fl.F → ℕ → fl.F) where
  open fl use {F}

  module _ (evaluate : String → String → Challenge F → EvaluationResult F)
      (settings : String → ReviewSettings F) where
    abbrev verdict_on : ExperimentRecord → String → HoldoutEvidence F → PromotionDecision F
    verdict_on e h ev =
        decide_from_evidence fl ev h (settings e.experiment_id).promotion_gates
          (settings e.experiment_id).safety_constraints

    -- Evidence of a genome: it was stored for it before, or it is what its evaluation on the holdout
    -- gives with the settings of the experiment.
    pub data IsOf (st : Store F) (e : ExperimentRecord) (baseline h : String)
        (dataset : DatasetVersion F) (ev : HoldoutEvidence F) : Type 0 where
      stored_before : IsStored h dataset st.evaluations ev → IsOf st e baseline h dataset ev
      fresh :
          evaluate_on_holdout fl np bound
              (evaluate e.config.domain_name)
              baseline
              h
              dataset
              (settings e.experiment_id).confidence
              (settings e.experiment_id).min_relative_improvement
              (settings e.experiment_id).seed
            ≡ ok ev
          → IsOf st e baseline h dataset ev

    -- What is behind the verdict of a review: the stored result of the experiment, a genome of the same
    -- application, and a measurement of it against the baseline and the dataset of that result, to which
    -- the gates of the experiment were applied. The verdict is the genome's latest decision.
    pub record IsReviewed (st : Store F) (experiment_id h : String)
        (out : Store F × PromotionReview F) : Type 0 where
      pub experiment : ExperimentRecord
      pub result : StoredResult
      pub dataset : DatasetVersion F
      pub candidate : GenomeRecord
      pub has_experiment : get_experiment st.session experiment_id ≡ some experiment
      pub has_result : experiment.result ≡ some result
      pub has_dataset :
          version_or_latest st (reviewed_dataset_id experiment result) result.dataset_version
          ≡ some dataset
      pub has_candidate : get_genome_record st.session h ≡ some candidate
      pub of_application : candidate.system_id ≡ experiment.application_id
      pub of_genome : IsOf st experiment result.baseline_genome h dataset out.1.evidence
      pub measured : IsMeasured result.baseline_genome dataset out.1.evidence
      pub decided : out.1.decision ≡ verdict_on experiment h out.1.evidence
      pub recorded :
          latest_promotion_decision out.0.session h
          ≡ some (decision_row h experiment.experiment_id out.1.decision)
      pub filed : All IsFiled out.0.evaluations
      pub once : OnceEach out.0.evaluations

    abbrev IsFound :
        Store F
        → ExperimentRecord
        → String
        → String
        → DatasetVersion F
        → Store F × HoldoutEvidence F
        → Type 0
    IsFound before e baseline h dataset (st, ev) =
        IsMeasured baseline dataset ev
        × (All IsFiled st.evaluations × OnceEach st.evaluations)
        × IsOf before e baseline h dataset ev

    evidence_for-IsMeasured :
        (st : Store F) (e : ExperimentRecord) (baseline h : String) (dataset : DatasetVersion F)
        (stored : Option (HoldoutEvaluationRecord F)) (again : Option (HoldoutEvidence F))
        → ((ev : HoldoutEvidence F) → again ≡ some ev → IsMeasured baseline dataset ev)
        → ((ev : HoldoutEvidence F) → again ≡ some ev → IsStored h dataset st.evaluations ev)
        → find (is_measurement h dataset.dataset_id dataset.version) st.evaluations ≡ stored
        → All IsFiled st.evaluations
        → OnceEach st.evaluations
        → Returns
            (IsFound st e baseline h dataset)
            (evidence_for fl np bound evaluate settings st e baseline h dataset stored again)
    unfolding evidence_for stored_or save_holdout_evaluation
    evidence_for-IsMeasured st e baseline h dataset stored (some ev) m n key f o =
        (m ev refl, (f, o), stored_before (n ev refl))
    evidence_for-IsMeasured st e baseline h dataset stored none m n key f o =
        by_result stored key
          (evaluate_on_holdout fl np bound (evaluate e.config.domain_name) baseline h dataset
            (settings e.experiment_id).confidence
            (settings e.experiment_id).min_relative_improvement (settings e.experiment_id).seed)
          (evaluate_on_holdout-IsMeasured fl np bound (evaluate e.config.domain_name) baseline h
            dataset _ _ _)
          refl
      where
        by_result :
            (stored : Option (HoldoutEvaluationRecord F))
            → find (is_measurement h dataset.dataset_id dataset.version) st.evaluations ≡ stored
            → (r : Result EvidenceError (HoldoutEvidence F))
            → Returns (IsMeasured baseline dataset) r
            → evaluate_on_holdout fl np bound
                (evaluate e.config.domain_name)
                baseline
                h
                dataset
                (settings e.experiment_id).confidence
                (settings e.experiment_id).min_relative_improvement
                (settings e.experiment_id).seed
              ≡ r
            → Returns (IsFound st e baseline h dataset) (
                measured_or_raise r >>= λ ev.
                ok (stored_or fl np bound evaluate settings stored st h e.experiment_id ev, ev))
        by_result stored k (err x) p q = tt
        by_result none k (ok ev) p q = (
          p,
          (
            All-append IsFiled st.evaluations _ f ((refl, refl), tt),
            OnceEach-append st.evaluations _ (rw (p.1, p.2) k) o,
          ),
          fresh q,
        )
        by_result (some r) k (ok ev) p q = (p, (f, o), fresh q)

    module _ (st : Store F) (experiment_id h : String) (f : All IsFiled st.evaluations)
        (o : OnceEach st.evaluations) where
      by_candidate :
          (e : ExperimentRecord) (result : StoredResult) (dataset : DatasetVersion F)
          → get_experiment st.session experiment_id ≡ some e
          → e.result ≡ some result
          → version_or_latest st (reviewed_dataset_id e result) result.dataset_version
            ≡ some dataset
          → Returns
              (IsReviewed st experiment_id h)
              (review_on fl np bound evaluate settings st e h result dataset)
      unfolding review_on conclude_review get_holdout_evaluation
      by_candidate e result dataset p q r = by_genome (get_genome_record st.session h) refl
        where
          again : Option (HoldoutEvidence F)
          again =
              reusable (get_holdout_evaluation st h dataset.dataset_id dataset.version)
                result.baseline_genome

          found : Result ReviewError (Store F × HoldoutEvidence F)
          found =
              evidence_for fl np bound evaluate settings st e result.baseline_genome h dataset
                (get_holdout_evaluation st h dataset.dataset_id dataset.version) again

          finish :
              (candidate : GenomeRecord)
              → get_genome_record st.session h ≡ some candidate
              → candidate.system_id ≡ e.application_id
              → (found : Result ReviewError (Store F × HoldoutEvidence F))
              → Returns (IsFound st e result.baseline_genome h dataset) found
              → Returns (IsReviewed st experiment_id h) (
                  found >>= λ (after, ev).
                  ok (conclude_review fl np bound evaluate settings after e h ev (is_some again)))
          finish candidate c same (err x) m = tt
          finish candidate c same (ok (after, ev)) m = record {
            experiment = e;
            result = result;
            dataset = dataset;
            candidate = candidate;
            has_experiment = p;
            has_result = q;
            has_dataset = r;
            has_candidate = c;
            of_application = same;
            of_genome = m.2;
            measured = m.0;
            decided = refl;
            recorded =
                latest-save_promotion_decision after.session
                  (decision_row h e.experiment_id (verdict_on e h ev));
            filed = m.1.0;
            once = m.1.1;
          }

          by_application :
              (candidate : GenomeRecord)
              → get_genome_record st.session h ≡ some candidate
              → (b : Bool) → (candidate.system_id == e.application_id) ≡ b
              → Returns (IsReviewed st experiment_id h) (
                  raise_if (not b) (other_application h candidate.system_id e.application_id)
                  >> (found >>= λ (after, ev).
                      ok (
                        conclude_review fl np bound evaluate settings after e h ev
                          (is_some again))))
          by_application candidate c false other = tt
          by_application candidate c true same =
              finish candidate c ((eq_iff candidate.system_id e.application_id).0 same) found (
                evidence_for-IsMeasured st e result.baseline_genome h dataset _ again
                  (λ ev a.
                    reusable-IsMeasured result.baseline_genome dataset h st.evaluations _ ev f refl
                      a)
                  (λ ev a.
                    reusable-IsStored result.baseline_genome dataset h st.evaluations _ ev refl a)
                  refl f o)

          by_genome :
              (o : Option GenomeRecord)
              → get_genome_record st.session h ≡ o
              → Returns (IsReviewed st experiment_id h) (
                  or_raise o (unknown_candidate h) >>= λ candidate.
                  raise_if
                    (not (candidate.system_id == e.application_id))
                    (other_application h candidate.system_id e.application_id)
                  >> (found >>= λ (after, ev).
                      ok (
                        conclude_review fl np bound evaluate settings after e h ev
                          (is_some again))))
          by_genome none c = tt
          by_genome (some candidate) c = by_application candidate c _ refl

      by_dataset :
          (e : ExperimentRecord) (result : StoredResult)
          → get_experiment st.session experiment_id ≡ some e
          → e.result ≡ some result
          → Returns
              (IsReviewed st experiment_id h)
              (review_result fl np bound evaluate settings st e h result)
      unfolding review_result
      by_dataset e result p q =
          go (version_or_latest st (reviewed_dataset_id e result) result.dataset_version) refl
        where
          go :
              (o : Option (DatasetVersion F))
              → version_or_latest st (reviewed_dataset_id e result) result.dataset_version ≡ o
              → Returns (IsReviewed st experiment_id h) (
                  or_raise o (dataset_not_found (reviewed_dataset_id e result))
                  >>= review_on fl np bound evaluate settings st e h result)
          go none r = tt
          go (some dataset) r = by_candidate e result dataset p q r

      by_result :
          (e : ExperimentRecord) (o : Option StoredResult)
          → get_experiment st.session experiment_id ≡ some e
          → e.result ≡ o
          → Returns (IsReviewed st experiment_id h) (
              or_raise o (no_completed_result experiment_id)
              >>= review_result fl np bound evaluate settings st e h)
      by_result e none p q = tt
      by_result e (some result) p q = by_dataset e result p q

      by_experiment :
          (o : Option ExperimentRecord)
          → get_experiment st.session experiment_id ≡ o
          → Returns (IsReviewed st experiment_id h) (
              or_raise o (no_completed_result experiment_id) >>= λ e.
              or_raise e.result (no_completed_result experiment_id)
              >>= review_result fl np bound evaluate settings st e h)
      by_experiment none p = tt
      by_experiment (some e) p = by_result e e.result p refl

    -- A review that returns rests on the stored result of the experiment, a genome of the same application
    -- and a measurement of that genome, stored for it before or made afresh, against the baseline and the
    -- dataset of that result, and its verdict, which is the genome's latest decision, is what the gates of
    -- the experiment say of that measurement. This needs
    -- that each stored measurement is under its dataset and is the only one for its genome and version,
    -- which the review keeps.
    pub review_promotion-IsReviewed :
        (st : Store F) (experiment_id h : String)
        → All IsFiled st.evaluations
        → OnceEach st.evaluations
        → Returns
            (IsReviewed st experiment_id h)
            (review_promotion fl np bound evaluate settings st experiment_id h)
    unfolding review_promotion
    review_promotion-IsReviewed st experiment_id h f o = by_experiment st experiment_id h f o _ refl
