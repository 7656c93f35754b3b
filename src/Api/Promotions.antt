-- ===== src/Api/Promotions.antt =====
-- The endpoints of the promotion pipeline (src/apps/api/neuroforge_api/main.py). The answer of each is
-- what its response shows.
pub mod SignedOff
use neuro_forge.Base.{
  ℕ, String, Option, none, some, List, [], ◌∷◌, ◌++◌, Result, ok, err, ◌>>=◌, or_raise,
}
use neuro_forge.Base.Float.{Floats}
use neuro_forge.Evaluation.Metrics.{EvaluationResult}
use neuro_forge.Evaluation.Statistics.{Numerics}
use neuro_forge.Promotion.Safety.{Side}
use neuro_forge.Promotion.Gates.{PromotionDecision}
use neuro_forge.Promotion.Review.{PromotionReview, ReviewSettings, review_promotion}
use neuro_forge.Datasets.{Challenge}
use neuro_forge.Db.{Session, GenomeRecord, get_genome_record}
use neuro_forge.Lifecycle.Change.{
  ProductionError, unknown_genome, PromotionOutcome, RollbackOutcome, promote_to_production,
  rollback_production,
}
use neuro_forge.Store.{Store}
use neuro_forge.Api.Auth.{AuthState, Principal, ApiKeyRecord}
use neuro_forge.Api.Endpoint.{
  ApiState, HttpError, production_refused, review_refused, as_http, with_session, audited, Body,
}

unfoldable pub system_of_genome : Session → String → Result ProductionError String
system_of_genome s h = elim (get_genome_record s h) [
  | none ↦ err (unknown_genome h)
  | some g ↦ ok g.system_id
]

module _ {F : Type 0} where
  -- `finalize_promotion`, for an admin.
  unfoldable pub finalize_promotion : String → Option String → Body F PromotionOutcome
  finalize_promotion h experiment_id st p = do
    system_id ← as_http production_refused (system_of_genome st.store.session h)
    outcome ←
        as_http production_refused (promote_to_production st.store.session h experiment_id p.name)
    ok (audited (with_session st outcome.0) p "finalize_promotion" h, outcome.1)

  -- `rollback_promotion`, for an admin.
  unfoldable pub rollback_promotion : String → Body F RollbackOutcome
  rollback_promotion system_id st p = do
    outcome ← as_http production_refused (rollback_production st.store.session system_id p.name)
    ok (audited (with_session st outcome.0) p "rollback_production" system_id, outcome.1)

  -- `create_api_key`, for an admin; the raw key and its hash are drawn outside.
  unfoldable pub create_api_key : String → String → String → String → Body F String
  create_api_key name role raw_key key_hash st p =
      let row : ApiKeyRecord = record { name = name; key_hash = key_hash; role = role } in
      let auth : AuthState F = record st.auth { api_keys = st.auth.api_keys ++ row ∷ [] } in
      ok (audited (record st { auth = auth }) p "create_api_key" name, raw_key)

module _ (fl : Floats) (np : Numerics fl) (bound : List fl.F → Side → fl.F → ℕ → fl.F)
    (evaluate : String → String → Challenge fl.F → EvaluationResult fl.F)
    (settings : String → ReviewSettings fl.F) where
  -- `request_promotion`, for an operator.
  unfoldable pub request_promotion : String → String → Body fl.F (PromotionDecision fl.F)
  request_promotion experiment_id h st p = do
    reviewed ←
        as_http review_refused
          (review_promotion fl np bound evaluate settings st.store experiment_id h)
    ok (audited (record st { store = reviewed.0 }) p "request_promotion" h, reviewed.1.decision)
