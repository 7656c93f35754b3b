-- ===== src/Api/Auth/Tracked.antt =====
-- How much the process keeps of its callers (src/apps/api/neuroforge_api/auth.py).
use neuro_forge.Base.{
  ℕ, suc, ◌+◌, ◌≤◌, String, Bool, true, false, not, ◌&&◌, Option, none, some, List, [], ◌∷◌, drop,
  length, length-keep, ◌==◌, leb as nat_leb, if◌then◌else◌, Result, err, is_some, arith, ◌≡◌, refl,
  ◌∙◌, ==_refl,
}
use neuro_forge.Base.Float
use neuro_forge.Base.Float.{Floats}
use neuro_forge.Api.Auth.{
  lookup, assign, remove, Bucket, RateLimiter, max_tracked_keys, busy_buckets, dropped, make_room,
  bucket_or_full, refill, refilled, is_empty_bucket, allow, blocked, Principal, ApiKeyRecord,
  Verified, AuthState, AuthError, invalid_key, missing_key, too_many_failures, verified_max_entries,
  principal_of, live_entry, cached_principal, remember, spend, fail_with, matching, let_in,
  check_key, given_key, by_cache, get_principal,
}

module _ {A : Type 0} where
  length-assign :
      (k : String) (a : A) (d : List (String × A))
      → length (assign k a d) ≡ (if is_some (lookup k d) then length d else suc (length d))
  unfolding assign lookup
  length-assign k a [] = refl
  length-assign k a ((j, b) ∷ d) = ground (arith, length-assign k a d)

  length-assign_any :
      (k : String) (a : A) (d : List (String × A)) → length (assign k a d) ≤ length d + 1
  length-assign_any k a d = ground (arith, length-assign k a d)

  length-assign_found :
      (k : String) (a old : A) (d : List (String × A))
      → lookup k d ≡ some old
      → length (assign k a d) ≡ length d
  length-assign_found k a old d e = length-assign k a d ∙ rw e refl

  lookup-assign :
      (k : String) (a : A) (d : List (String × A)) → is_some (lookup k (assign k a d)) ≡ true
  unfolding assign lookup
  lookup-assign k a [] = ground (arith, ==_refl k)
  lookup-assign k a ((j, b) ∷ d) = ground (arith, lookup-assign k a d, ==_refl k)

-- The oldest entry makes room for one more.
room_left :
    {A : Type 0} (xs : List A) (m : ℕ)
    → length xs ≤ suc m
    → length (if nat_leb (suc m) (length xs) then drop 1 xs else xs) + 1 ≤ suc m
room_left [] m h = ground arith
room_left (x ∷ xs) m h = ground arith

module _ (fl : Floats) where
  open fl use {F, sub, div, ltb}

  abbrev pub IsBounded : RateLimiter F → Type 0
  IsBounded lim = length lim.buckets ≤ max_tracked_keys

  length-dropped :
      (lim : RateLimiter F) (now : F)
      → IsBounded lim
      → length (dropped fl lim now) + 1 ≤ max_tracked_keys
  unfolding dropped
  length-dropped lim now h = room_left (busy_buckets fl lim now) 9999 (
      omega (
        arith,
        h,
        length-keep (λ (_, b). ltb (sub now b.last_refill) (div lim.capacity lim.refill_per_second))
            lim.buckets,
      ))

  refilled-IsBounded :
      (lim : RateLimiter F) (key : String) (now : F)
      → IsBounded lim
      → IsBounded (refilled fl lim key now).0
  unfolding refilled make_room
  refilled-IsBounded lim key now h =
      by_room (lookup key lim.buckets) refl (nat_leb max_tracked_keys (length lim.buckets)) refl
    where
      room : Bool → List (String × Bucket F)
      room b = if b then dropped fl lim now else lim.buckets

      entry : Bool → Bucket F
      entry b = refill fl lim now (bucket_or_full fl lim now (lookup key (room b)))

      by_room :
          (o : Option (Bucket F))
          → lookup key lim.buckets ≡ o
          → (b : Bool) → nat_leb max_tracked_keys (length lim.buckets) ≡ b
          → length (assign key (entry (not (is_some o) && b)) (room (not (is_some o) && b)))
            ≤ max_tracked_keys
      by_room (some old) there b full =
          omega (arith, h, length-assign_found key (entry false) old lim.buckets there)
      by_room none absent true full =
          omega (
            arith,
            length-assign_any key (entry true) (dropped fl lim now),
            length-dropped lim now h,
          )
      by_room none absent false full =
          ground (arith, full, length-assign_any key (entry false) lim.buckets)

  allow-IsBounded :
      (lim : RateLimiter F) (key : String) (now : F)
      → IsBounded lim
      → IsBounded (allow fl lim key now).0
  unfolding allow refilled
  allow-IsBounded lim key now h = by_tokens (is_empty_bucket fl after.1)
    where
      after : RateLimiter F × Bucket F
      after = refilled fl lim key now

      spent : Bucket F
      spent = record after.1 { tokens = sub after.1.tokens (Float.f_one fl) }

      outcome : Bool → RateLimiter F × Bool
      outcome b =
          if b
          then (after.0, false)
          else (record after.0 { buckets = assign key spent after.0.buckets }, true)

      by_tokens : (b : Bool) → IsBounded (outcome b).0
      by_tokens true = refilled-IsBounded lim key now h
      by_tokens false = ground (
        arith,
        refilled-IsBounded lim key now h,
        length-assign key spent after.0.buckets,
        lookup-assign key after.1 (make_room fl lim key now),
      )

  -- The two limiters and the cache keep to their limits.
  pub record IsWithin (st : AuthState F) : Type 0 where
    pub rates : IsBounded st.rate_limiter
    pub failures : IsBounded st.failure_limiter
    pub cached : length st.verified ≤ verified_max_entries

  module _ (fingerprint : String → String) (verify : String → String → Bool) where
    spend-IsWithin :
        (st : AuthState F) (key_hash : String) (now : F) (p : Principal)
        → IsWithin st
        → IsWithin (spend fl fingerprint verify st key_hash now p).0
    unfolding spend
    spend-IsWithin st key_hash now p v = record {
      rates = allow-IsBounded st.rate_limiter key_hash now v.rates;
      failures = v.failures;
      cached = v.cached;
    }

    fail_with-IsWithin :
        (st : AuthState F) (client : String) (now : F) (e : AuthError)
        → IsWithin st
        → IsWithin (fail_with fl fingerprint verify st client now e).0
    unfolding fail_with
    fail_with-IsWithin st client now e v = record {
      rates = v.rates;
      failures = allow-IsBounded st.failure_limiter client now v.failures;
      cached = v.cached;
    }

    remember-IsWithin :
        (st : AuthState F) (fp : String) (r : ApiKeyRecord) (now : F)
        → IsWithin st
        → IsWithin (remember fl fingerprint verify st fp r now)
    unfolding remember
    remember-IsWithin st fp r now v = record {
      rates = v.rates;
      failures = v.failures;
      cached = omega (
        arith,
        room_left st.verified 1023 v.cached,
        length-assign_any fp _
            (if nat_leb 1024 (length st.verified) then drop 1 st.verified else st.verified),
      );
    }

    check_key-IsWithin :
        (st : AuthState F) (client : String) (raw_key : Option String) (now : F)
        → IsWithin st
        → IsWithin (check_key fl fingerprint verify st client raw_key now).0
    unfolding check_key blocked
    check_key-IsWithin st client raw_key now v = by_block (is_empty_bucket fl after.1) raw_key
      where
        after : RateLimiter F × Bucket F
        after = refilled fl st.failure_limiter client now

        st' : AuthState F
        st' = record st { failure_limiter = after.0 }

        within : IsWithin st'
        within = record {
          rates = v.rates;
          failures = refilled-IsBounded st.failure_limiter client now v.failures;
          cached = v.cached;
        }

        by_match :
            (k : String) (o : Option ApiKeyRecord)
            → IsWithin (let_in fl fingerprint verify st' client k now o).0
        by_match k none = fail_with-IsWithin st' client now invalid_key within
        by_match k (some r) =
            spend-IsWithin (remember fl fingerprint verify st' (fingerprint k) r now) r.key_hash now
              (principal_of r) (remember-IsWithin st' (fingerprint k) r now within)

        outcome : Bool → Option String → AuthState F × Result AuthError Principal
        outcome b raw_key = if b then (st', err too_many_failures) else elim raw_key [
          | none ↦ fail_with fl fingerprint verify st' client now missing_key
          | some k ↦
              let_in fl fingerprint verify st' client k now
                (matching fl fingerprint verify k st'.api_keys)
        ]

        by_block : (b : Bool) (raw_key : Option String) → IsWithin (outcome b raw_key).0
        by_block true raw_key = within
        by_block false none = fail_with-IsWithin st' client now missing_key within
        by_block false (some k) = by_match k (matching fl fingerprint verify k st'.api_keys)

    -- A request keeps the bounds of 10000 tracked keys in each limiter and 1024 entries in the cache, if
    -- they held before it, whatever it presents and however it ends.
    pub get_principal-IsWithin :
        (st : AuthState F) (client : String) (raw_key : Option String) (now : F)
        → IsWithin st
        → IsWithin (get_principal fl fingerprint verify st client raw_key now).0
    unfolding get_principal cached_principal remove
    get_principal-IsWithin st client raw_key now v = by_key (given_key raw_key)
      where
        by_expiry :
            (k : String) (e : Verified F) (b : Bool)
            → IsWithin
                (by_cache fl fingerprint verify client k now (
                  if b
                  then (record st { verified = remove (fingerprint k) st.verified }, none)
                  else (st, some e))).0
        by_expiry k e true = check_key-IsWithin _ client (some k) now (record {
          rates = v.rates;
          failures = v.failures;
          cached =
              omega (arith, v.cached, length-keep (λ (j, _). not (j == fingerprint k)) st.verified);
        })
        by_expiry k e false = spend-IsWithin st e.key_hash now _ v

        by_entry :
            (k : String) (o : Option (Verified F))
            → IsWithin
                (by_cache fl fingerprint verify client k now
                  (live_entry fl fingerprint verify st (fingerprint k) now o)).0
        by_entry k none = check_key-IsWithin st client (some k) now v
        by_entry k (some e) = by_expiry k e (ltb e.expires_at now)

        outcome : Option String → AuthState F × Result AuthError Principal
        outcome o = elim o [
          | none ↦ check_key fl fingerprint verify st client none now
          | some k ↦
              by_cache fl fingerprint verify client k now
                (cached_principal fl fingerprint verify st (fingerprint k) now)
        ]

        by_key : (o : Option String) → IsWithin (outcome o).0
        by_key none = check_key-IsWithin st client none now v
        by_key (some k) = by_entry k (lookup (fingerprint k) st.verified)
