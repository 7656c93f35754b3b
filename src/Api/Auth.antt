-- ===== src/Api/Auth.antt =====
-- Authentication, roles and rate limits (src/apps/api/neuroforge_api/auth.py). Each call reads the
-- clock once, and the locks make it one step. The hash of a key and its verification are parameters.
pub mod Tracked
pub mod Genuine
use neuro_forge.Base.{
  ℕ, zero, suc, String, Bool, true, false, not, ◌&&◌, Option, none, some, List, [], ◌∷◌, ◌++◌, keep,
  find, drop, length, ◌==◌, leb as nat_leb, ltb as nat_ltb, if◌then◌else◌, Result, ok, err, is_some,
}
use neuro_forge.Base.Float
use neuro_forge.Base.Float.{Floats}

-- Python's dicts, in insertion order.
module _ {A : Type 0} where
  unfoldable pub lookup : String → List (String × A) → Option A
  lookup k [] = none
  lookup k ((j, a) ∷ d) = let rest = lookup k d in if j == k then some a else rest

  -- `d[k] = a`
  unfoldable pub assign : String → A → List (String × A) → List (String × A)
  assign k a [] = (k, a) ∷ []
  assign k a ((j, b) ∷ d) = let rest = assign k a d in if j == k then (j, a) ∷ d else (j, b) ∷ rest

  -- `del d[k]`
  unfoldable pub remove : String → List (String × A) → List (String × A)
  remove k d = keep (λ (j, _). not (j == k)) d

-- `_Bucket`
pub record Bucket (F : Type 0) : Type 0 where
  pub tokens : F
  pub last_refill : F

pub record RateLimiter (F : Type 0) : Type 0 where
  pub capacity : F
  pub refill_per_second : F
  pub buckets : List (String × Bucket F)

abbrev pub max_tracked_keys : ℕ
max_tracked_keys = 10000

module _ (fl : Floats) where
  open fl use {F, dec, add, sub, mul, div, ltb}

  -- The buckets that have not refilled.
  abbrev pub busy_buckets : RateLimiter F → F → List (String × Bucket F)
  busy_buckets lim now =
      let full_after = div lim.capacity lim.refill_per_second in
      keep (λ (_, b). ltb (sub now b.last_refill) full_after) lim.buckets

  -- One less of them if those are too many still.
  unfoldable pub dropped : RateLimiter F → F → List (String × Bucket F)
  dropped lim now =
      let busy = busy_buckets lim now in
      if nat_leb max_tracked_keys (length busy) then drop 1 busy else busy

  unfoldable pub make_room : RateLimiter F → String → F → List (String × Bucket F)
  make_room lim key now =
      if not (is_some (lookup key lim.buckets)) && nat_leb max_tracked_keys (length lim.buckets)
      then dropped lim now
      else lim.buckets

  -- `self._buckets.setdefault(key, _Bucket(tokens=self.capacity))`
  abbrev pub bucket_or_full : RateLimiter F → F → Option (Bucket F) → Bucket F
  bucket_or_full lim now none = record { tokens = lim.capacity; last_refill = now }
  bucket_or_full lim now (some b) = b

  unfoldable pub refill : RateLimiter F → F → Bucket F → Bucket F
  refill lim now b = record {
    tokens =
        Float.min fl lim.capacity
          (add b.tokens (mul (sub now b.last_refill) lim.refill_per_second));
    last_refill = now;
  }

  -- `_refilled`: the bucket of a key, and the limiter that tracks it.
  unfoldable pub refilled : RateLimiter F → String → F → RateLimiter F × Bucket F
  refilled lim key now =
      let room = make_room lim key now in
      let b = refill lim now (bucket_or_full lim now (lookup key room)) in
      (record lim { buckets = assign key b room }, b)

  -- `bucket.tokens < 1`
  abbrev pub is_empty_bucket : Bucket F → Bool
  is_empty_bucket b = ltb b.tokens (Float.f_one fl)

  unfoldable pub allow : RateLimiter F → String → F → RateLimiter F × Bool
  allow lim key now =
      let (lim', b) = refilled lim key now in
      if is_empty_bucket b then (lim', false) else (
        record lim' {
          buckets = assign key (record b { tokens = sub b.tokens (Float.f_one fl) }) lim'.buckets;
        },
        true,
      )

  unfoldable pub blocked : RateLimiter F → String → F → RateLimiter F × Bool
  blocked lim key now = let (lim', b) = refilled lim key now in (lim', is_empty_bucket b)

pub record Principal : Type 0 where
  pub name : String
  pub role : String

pub record ApiKeyRecord : Type 0 where
  pub name : String
  pub key_hash : String
  pub role : String

-- An entry of `_verified`.
pub record Verified (F : Type 0) : Type 0 where
  pub name : String
  pub role : String
  pub key_hash : String
  pub expires_at : F

-- What the process keeps, and the table of the keys.
pub record AuthState (F : Type 0) : Type 0 where
  pub rate_limiter : RateLimiter F
  pub failure_limiter : RateLimiter F
  pub verified : List (String × Verified F)
  pub api_keys : List ApiKeyRecord

-- The refusals, with their HTTP statuses: 429, 429, 401, 401 and 403.
pub data AuthError : Type 0 where
  rate_limit_exceeded too_many_failures missing_key invalid_key : AuthError
  role_too_low : String → String → AuthError

abbrev pub verified_max_entries : ℕ
verified_max_entries = 1024

abbrev pub principal_of : ApiKeyRecord → Principal
principal_of r = record { name = r.name; role = r.role }

-- A key that is an empty text is missing.
abbrev pub given_key : Option String → Option String
given_key none = none
given_key (some k) = if k == "" then none else some k

module _ (fl : Floats) (fingerprint : String → String) (verify : String → String → Bool) where
  open fl use {F, dec, add, ltb}

  -- An entry that has expired is deleted.
  abbrev pub live_entry :
      AuthState F → String → F → Option (Verified F) → AuthState F × Option (Verified F)
  live_entry st fp now none = (st, none)
  live_entry st fp now (some e) =
      if ltb e.expires_at now
      then (record st { verified = remove fp st.verified }, none)
      else (st, some e)

  -- `_cached_principal`
  unfoldable pub cached_principal : AuthState F → String → F → AuthState F × Option (Verified F)
  cached_principal st fp now = live_entry st fp now (lookup fp st.verified)

  -- `_remember`, for 300 seconds; the oldest entry makes room.
  unfoldable pub remember : AuthState F → String → ApiKeyRecord → F → AuthState F
  remember st fp r now =
      let room =
        if nat_leb verified_max_entries (length st.verified)
        then drop 1 st.verified
        else st.verified in
      record st {
        verified =
            assign fp
              (record {
                name = r.name;
                role = r.role;
                key_hash = r.key_hash;
                expires_at = add now (dec 300 0);
              })
              room;
      }

  -- A token of the key is spent, or the request is refused.
  unfoldable pub spend :
      AuthState F → String → F → Principal → AuthState F × Result AuthError Principal
  spend st key_hash now p =
      let (lim, allowed) = allow fl st.rate_limiter key_hash now in
      (record st { rate_limiter = lim }, if allowed then ok p else err rate_limit_exceeded)

  -- A failed attempt is counted for the client.
  unfoldable pub fail_with :
      AuthState F → String → F → AuthError → AuthState F × Result AuthError Principal
  fail_with st client now e =
      (record st { failure_limiter = (allow fl st.failure_limiter client now).0 }, err e)

  -- The loop over the stored keys.
  unfoldable pub matching : String → List ApiKeyRecord → Option ApiKeyRecord
  matching raw_key rs = find (λ r. verify raw_key r.key_hash) rs

  abbrev pub let_in :
      AuthState F
      → String
      → String
      → F
      → Option ApiKeyRecord
      → AuthState F × Result AuthError Principal
  let_in st client raw_key now none = fail_with st client now invalid_key
  let_in st client raw_key now (some r) =
      spend (remember st (fingerprint raw_key) r now) r.key_hash now (principal_of r)

  -- What follows when no cached entry has decided: the client's failures, then the key itself.
  unfoldable pub check_key :
      AuthState F → String → Option String → F → AuthState F × Result AuthError Principal
  check_key st client raw_key now =
      let (failures, is_blocked) = blocked fl st.failure_limiter client now in
      let st' = record st { failure_limiter = failures } in
      if is_blocked then (st', err too_many_failures) else elim raw_key [
        | none ↦ fail_with st' client now missing_key
        | some k ↦ let_in st' client k now (matching k st'.api_keys)
      ]

  abbrev pub by_cache :
      String
      → String
      → F
      → AuthState F × Option (Verified F)
      → AuthState F × Result AuthError Principal
  by_cache client k now (st, none) = check_key st client (some k) now
  by_cache client k now (st, some e) =
      spend st e.key_hash now (record { name = e.name; role = e.role })

  unfoldable pub get_principal :
      AuthState F → String → Option String → F → AuthState F × Result AuthError Principal
  get_principal st client raw_key now = elim (given_key raw_key) [
    | none ↦ check_key st client none now
    | some k ↦ by_cache client k now (cached_principal st (fingerprint k) now)
  ]

-- `ROLE_RANK`, one more than in the source, where an unknown role has rank -1.
unfoldable pub role_rank : String → ℕ
role_rank role =
    if role == "viewer"
    then 1
    else if role == "operator"
    then 2
    else if role == "admin"
    then 3
    else 0

unfoldable pub require_role : String → Principal → Result AuthError Principal
require_role minimum_role p =
    if nat_ltb (role_rank p.role) (role_rank minimum_role)
    then err (role_too_low p.role minimum_role)
    else ok p
