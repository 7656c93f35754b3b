-- ===== src/Api/Promotions/SignedOff.antt =====
-- Who takes a genome into production through the web API (src/apps/api/neuroforge_api/main.py).
use neuro_forge.Base.{
  String, Bool, Option, [], ◌∷◌, ◌++◌, Result, ok, err, ◌>>=◌, Returns, Returns-ok, ◌≤◌, ◌≡◌, refl,
  arith, eq_iff,
}
use neuro_forge.Base.Float.{Floats}
use neuro_forge.Db.{Session}
use neuro_forge.Lifecycle.Change.{ProductionError, PromotionOutcome, promote_to_production}
use neuro_forge.Lifecycle.Promotion.{Promotes, promote-eq-ok}
use neuro_forge.Api.Auth.{Principal, AuthState, given_key, role_rank}
use neuro_forge.Api.Auth.Genuine.{Genuine, IsHolder}
use neuro_forge.Api.Endpoint.{
  ApiState, Request, HttpError, as_http, production_refused, with_session, audited, endpoint,
}
use neuro_forge.Api.Endpoint.Answered.{Answered, refuses, answers, endpoint-Answered}
use neuro_forge.Api.Promotions.{finalize_promotion, system_of_genome}

role_rank_admin : (role : String) → 3 ≤ role_rank role → role ≡ "admin"
unfolding role_rank
role_rank_admin role h = ground (arith, eq_iff role "admin")

module _ (fl : Floats) (fingerprint : String → String) (verify : String → String → Bool)
    (h : String) (experiment_id : Option String) (st : ApiState fl.F) (request : Request) where
  open fl use {F}

  pub data IsSignedOff : ApiState F × Result HttpError PromotionOutcome → Type 0 where
    unchanged :
        {after : ApiState F} {e : HttpError}
        → after.store ≡ st.store
        → after.audit_log ≡ st.audit_log
        → IsSignedOff (after, err e)
    signed_off :
        {after : ApiState F} {out : PromotionOutcome} (p : Principal)
        → IsHolder fl fingerprint verify st.auth.api_keys (given_key request.raw_key) p
        → p.role ≡ "admin"
        → Promotes st.store.session h experiment_id p.name after.store.session
        → after.audit_log
          ≡ st.audit_log
            ++ record { actor = p.name; action = "finalize_promotion"; subject = h } ∷ []
        → IsSignedOff (after, ok out)

  -- What an answer of the endpoint holds.
  record IsPromotion (p : Principal) (auth : AuthState F) (after : ApiState F) : Type 0 where
    pub promotes : Promotes st.store.session h experiment_id p.name after.store.session
    pub logged :
        after.audit_log
        ≡ st.audit_log ++ record { actor = p.name; action = "finalize_promotion"; subject = h } ∷ []

  finalize-IsPromotion :
      (auth : AuthState F) (p : Principal)
      → Returns
          (λ (after, out). IsPromotion p auth after)
          (finalize_promotion h experiment_id (record st { auth = auth }) p)
  unfolding finalize_promotion
  finalize-IsPromotion auth p = by_system (system_of_genome st.store.session h)
    where
      given : ApiState F
      given = record st { auth = auth }

      finish : Session × PromotionOutcome → Result HttpError (ApiState F × PromotionOutcome)
      finish (s, out) = ok (audited (with_session given s) p "finalize_promotion" h, out)

      by_outcome :
          (r : Result ProductionError (Session × PromotionOutcome))
          → promote_to_production st.store.session h experiment_id p.name ≡ r
          → Returns
              (λ (after, out). IsPromotion p auth after)
              (as_http production_refused r >>= finish)
      by_outcome (err e) q = tt
      by_outcome (ok (s, out)) q = record {
        promotes = promote-eq-ok st.store.session h experiment_id p.name q;
        logged = refl;
      }

      by_system :
          (r : Result ProductionError String)
          → Returns
              (λ (after, out). IsPromotion p auth after)
              (as_http production_refused r >>= λ system_id.
                as_http production_refused
                  (promote_to_production st.store.session h experiment_id p.name)
                >>= finish)
      by_system (err e) = tt
      by_system (ok system_id) = by_outcome _ refl

  -- Through the web API a genome goes into production only for a caller that holds a stored admin key,
  -- and then the promotion is signed and audited with the name of that key; any refusal leaves the store
  -- and the audit log. This needs that the cache stands for keys that were verified, and that keys
  -- of one fingerprint are one.
  pub finalize_promotion-IsSignedOff :
      ((a b : String) → fingerprint a ≡ fingerprint b → a ≡ b)
      → (now : F) → Genuine fl fingerprint verify st.auth.api_keys st.auth.verified
      → IsSignedOff (
          endpoint fl fingerprint verify "admin"
            (finalize_promotion h experiment_id)
            st
            request
            now)
  unfolding role_rank
  finalize_promotion-IsSignedOff one now gs = by_answer _ (
      endpoint-Answered fl fingerprint verify "admin" (finalize_promotion h experiment_id) st
        request one now gs)
    where
      by_answer :
          (out : ApiState F × Result HttpError PromotionOutcome)
          → Answered fl fingerprint verify "admin"
              (finalize_promotion h experiment_id)
              st
              request
              out
          → IsSignedOff out
      by_answer _ (refuses s l) = unchanged s l
      by_answer _ (answers {after} {a = out} p auth holder enough same eq) =
          let made =
            Returns-ok (λ (a, o). IsPromotion p auth a) _ (after, out) eq
              (finalize-IsPromotion auth p) in
          signed_off p holder (role_rank_admin p.role enough) made.promotes made.logged
