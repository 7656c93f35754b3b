-- ===== src/Api/Endpoint.antt =====
-- What the endpoints share (src/apps/api/neuroforge_api/main.py, auth.py): the caller's role, the
-- HTTP status of an error, the audit log, and a database session that an error rolls back.
pub mod Answered
use neuro_forge.Base.{
  ℕ, String, Bool, true, false, Option, List, [], ◌∷◌, ◌++◌, ltb as nat_ltb, if◌then◌else◌, Result,
  ok, err, Returns, ◌≡◌, refl, arith, eq_iff,
}
use neuro_forge.Base.Float.{Floats}
use neuro_forge.Lifecycle.Change.{
  ProductionError, unknown_genome, already_promoted, no_approved_decision, no_canary,
  canary_rolled_back, stale_baseline, nothing_in_production, unknown_baseline,
}
use neuro_forge.Promotion.Review.{ReviewError}
use neuro_forge.Db.{Session}
use neuro_forge.Store.{Store}
use neuro_forge.Api.Auth.{
  AuthState, AuthError, rate_limit_exceeded, too_many_failures, missing_key, invalid_key,
  role_too_low, Principal, given_key, role_rank, require_role, get_principal,
}
use neuro_forge.Api.Auth.Genuine.{Genuine, IsHolder, IsSound, get_principal-IsSound}

pub record AuditLogRecord : Type 0 where
  pub actor : String
  pub action : String
  pub subject : String

pub record ApiState (F : Type 0) : Type 0 where
  pub auth : AuthState F
  pub store : Store F
  pub audit_log : List AuditLogRecord

-- The address and the key of a caller.
pub record Request : Type 0 where
  pub client : String
  pub raw_key : Option String

pub data HttpError : Type 0 where
  refused : AuthError → HttpError
  production_refused : ProductionError → HttpError
  review_refused : ReviewError → HttpError
  http_error : ℕ → String → HttpError

abbrev pub auth_status : AuthError → ℕ
auth_status rate_limit_exceeded = 429
auth_status too_many_failures = 429
auth_status missing_key = 401
auth_status invalid_key = 401
auth_status (role_too_low role minimum) = 403

-- `_PRODUCTION_STATUS` of the `kind` of the error.
abbrev pub production_status : ProductionError → ℕ
production_status (unknown_genome h) = 404
production_status already_promoted = 409
production_status no_approved_decision = 400
production_status no_canary = 400
production_status canary_rolled_back = 400
production_status (stale_baseline a b) = 409
production_status (nothing_in_production sys) = 409
production_status (unknown_baseline spec) = 400

abbrev pub http_status : HttpError → ℕ
http_status (refused e) = auth_status e
http_status (production_refused e) = production_status e
http_status (review_refused e) = 400
http_status (http_error n detail) = n

-- `except ... as exc: raise HTTPException(...) from exc`
abbrev pub as_http {ℓ κ} :
    {E : Type ℓ} {A : Type κ} → (E → HttpError) → Result E A → Result HttpError A
as_http f (ok a) = ok a
as_http f (err e) = err (f e)

module _ {F : Type 0} where
  abbrev pub with_session : ApiState F → Session → ApiState F
  with_session st s = record st { store = record st.store { session = s } }

  -- `audit(principal.name, action, ...)`
  abbrev pub audited : ApiState F → Principal → String → String → ApiState F
  audited st p action subject = record st {
    audit_log = st.audit_log ++ record { actor = p.name; action = action; subject = subject } ∷ [];
  }

-- An endpoint reads the state and its caller, and leaves a state with an answer, or raises.
abbrev pub Body : Type 0 → Type 0 → Type 0
Body F A = ApiState F → Principal → Result HttpError (ApiState F × A)

module _ (fl : Floats) (fingerprint : String → String) (verify : String → String → Bool) where
  open fl use {F}

  -- An error leaves what the session held.
  abbrev pub answer {ℓ} :
      {A : Type ℓ}
      → ApiState F
      → Result HttpError (ApiState F × A)
      → ApiState F × Result HttpError A
  answer st (ok (st', a)) = (st', ok a)
  answer st (err e) = (st, err e)

  abbrev pub admitted :
      {A : Type 0}
      → ApiState F
      → Body F A
      → Result AuthError Principal
      → ApiState F × Result HttpError A
  admitted st body (err e) = (st, err (refused e))
  admitted st body (ok p) = answer st (body st p)

  abbrev pub checked : String → Result AuthError Principal → Result AuthError Principal
  checked minimum_role (err e) = err e
  checked minimum_role (ok p) = require_role minimum_role p

  -- `principal: Principal = Depends(require_role(...))`, and the body of the endpoint.
  unfoldable pub endpoint :
      {A : Type 0} → String → Body F A → ApiState F → Request → F → ApiState F × Result HttpError A
  endpoint minimum_role body st request now =
      let who = get_principal fl fingerprint verify st.auth request.client request.raw_key now in
      admitted (record st { auth = who.0 }) body (checked minimum_role who.1)
