-- ===== src/Api/Endpoint/Answered.antt =====
-- What an endpoint does for its caller (src/apps/api/neuroforge_api/auth.py, main.py).
use neuro_forge.Base.{
  ◌≤◌, String, Bool, true, false, ltb as nat_ltb, if◌then◌else◌, Result, ok, err, Returns, ◌≡◌,
  refl, arith,
}
use neuro_forge.Base.Float.{Floats}
use neuro_forge.Api.Auth.{
  AuthState, AuthError, role_too_low, Principal, given_key, role_rank, require_role,
}
use neuro_forge.Api.Auth.Genuine.{Genuine, IsHolder, get_principal-IsSound}
use neuro_forge.Api.Endpoint.{
  ApiState, Request, HttpError, Body, answer, admitted, checked, endpoint,
}

module _ (fl : Floats) (fingerprint : String → String) (verify : String → String → Bool)
    {A : Type 0} (minimum_role : String) (body : Body fl.F A) (st : ApiState fl.F)
    (request : Request) where
  open fl use {F}

  -- An error leaves the store and the audit log; an answer is what the body gives for a caller that
  -- holds a stored key of a sufficient role.
  pub data Answered : ApiState F × Result HttpError A → Type 0 where
    refuses :
        {after : ApiState F} {e : HttpError}
        → after.store ≡ st.store
        → after.audit_log ≡ st.audit_log
        → Answered (after, err e)
    answers :
        {after : ApiState F} {a : A} (p : Principal) (auth : AuthState F)
        → IsHolder fl fingerprint verify st.auth.api_keys (given_key request.raw_key) p
        → role_rank minimum_role ≤ role_rank p.role
        → auth.api_keys ≡ st.auth.api_keys
        → body (record st { auth = auth }) p ≡ ok (after, a)
        → Answered (after, ok a)

  admitted-Answered :
      (auth : AuthState F) (who : Result AuthError Principal)
      → auth.api_keys ≡ st.auth.api_keys
      → Returns (IsHolder fl fingerprint verify st.auth.api_keys (given_key request.raw_key)) who
      → Answered (
          admitted fl fingerprint verify
            (record st { auth = auth })
            body
            (checked fl fingerprint verify minimum_role who))
  unfolding require_role
  admitted-Answered auth (err e) same h = refuses refl refl
  admitted-Answered auth (ok p) same h =
      by_role (nat_ltb (role_rank p.role) (role_rank minimum_role)) refl
    where
      by_answer :
          (r : Result HttpError (ApiState F × A))
          → body (record st { auth = auth }) p ≡ r
          → role_rank minimum_role ≤ role_rank p.role
          → Answered (answer fl fingerprint verify (record st { auth = auth }) r)
      by_answer (err e) q enough = refuses refl refl
      by_answer (ok (after, a)) q enough = answers p auth h enough same q

      by_role :
          (b : Bool)
          → nat_ltb (role_rank p.role) (role_rank minimum_role) ≡ b
          → Answered (
              admitted fl fingerprint verify
                (record st { auth = auth })
                body
                (if b then err (role_too_low p.role minimum_role) else ok p))
      by_role true low = refuses refl refl
      by_role false enough = by_answer _ refl (ground (arith, enough))

  pub endpoint-Answered :
      ((a b : String) → fingerprint a ≡ fingerprint b → a ≡ b)
      → (now : F) → Genuine fl fingerprint verify st.auth.api_keys st.auth.verified
      → Answered (endpoint fl fingerprint verify minimum_role body st request now)
  unfolding endpoint
  endpoint-Answered one now gs =
      let sound =
        get_principal-IsSound fl fingerprint verify one st.auth request.client request.raw_key now
          gs in
      admitted-Answered _ _ sound.same_keys sound.holder
