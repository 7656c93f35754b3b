-- ===== src/Api/Auth/Genuine.antt =====
-- Who is let in (src/apps/api/neuroforge_api/auth.py).
use neuro_forge.Base.{
  String, Bool, true, false, Option, none, some, List, [], ◌∷◌, drop, length, ◌==◌, leb as nat_leb,
  if◌then◌else◌, Result, ok, err, Returns, Member, All, keep-All, find-Member, find-true, ◌≡◌, refl,
  sym, subst, eq_iff,
}
use mathlib.Core.Option.{some_inj}
use neuro_forge.Base.Float.{Floats}
use neuro_forge.Api.Auth.{
  lookup, assign, remove, allow, blocked, Principal, ApiKeyRecord, Verified, AuthState, AuthError,
  missing_key, too_many_failures, rate_limit_exceeded, verified_max_entries, principal_of,
  live_entry, cached_principal, remember, spend, fail_with, matching, let_in, check_key, given_key,
  by_cache, get_principal,
}

module _ (fl : Floats) (fingerprint : String → String) (verify : String → String → Bool) where
  open fl use {F, ltb}

  -- A stored key that a raw key verifies.
  pub record IsKnown (keys : List ApiKeyRecord) (raw_key name role key_hash : String) : Type 0 where
    pub row : ApiKeyRecord
    pub is_stored : Member row keys
    pub verifies : verify raw_key row.key_hash ≡ true
    pub same_name : row.name ≡ name
    pub same_role : row.role ≡ role
    pub same_hash : row.key_hash ≡ key_hash

  -- An entry of the cache stands for a raw key with its fingerprint that was verified.
  pub record IsVouched (keys : List ApiKeyRecord) (fp : String) (e : Verified F) : Type 0 where
    pub raw_key : String
    pub has_print : fingerprint raw_key ≡ fp
    pub known : IsKnown keys raw_key e.name e.role e.key_hash

  abbrev pub Genuine : List ApiKeyRecord → List (String × Verified F) → Type 0
  Genuine keys d = All (λ (fp, e). IsVouched keys fp e) d

  assign-Genuine :
      (keys : List ApiKeyRecord) (fp : String) (e : Verified F) (d : List (String × Verified F))
      → IsVouched keys fp e
      → Genuine keys d
      → Genuine keys (assign fp e d)
  unfolding assign
  assign-Genuine keys fp e [] g gs = (g, tt)
  assign-Genuine keys fp e ((j, b) ∷ d) g gs =
      at_head (j == fp) refl (assign-Genuine keys fp e d g gs.1)
    where
      at_head :
          (same : Bool)
          → (j == fp) ≡ same
          → Genuine keys (assign fp e d)
          → Genuine keys (if same then (j, e) ∷ d else (j, b) ∷ assign fp e d)
      at_head true q rest = (subst (λ k. IsVouched keys k e) (sym ((eq_iff j fp).0 q)) g, gs.1)
      at_head false q rest = (gs.0, rest)

  lookup-Genuine :
      (keys : List ApiKeyRecord) (fp : String) (d : List (String × Verified F)) (e : Verified F)
      → Genuine keys d
      → lookup fp d ≡ some e
      → IsVouched keys fp e
  unfolding lookup
  lookup-Genuine keys fp [] e gs h = cc
  lookup-Genuine keys fp ((j, b) ∷ d) e gs h =
      at_head (j == fp) refl h (λ g. lookup-Genuine keys fp d e gs.1 g)
    where
      at_head :
          (same : Bool)
          → (j == fp) ≡ same
          → (if same then some b else lookup fp d) ≡ some e
          → (lookup fp d ≡ some e → IsVouched keys fp e)
          → IsVouched keys fp e
      at_head true q g rest =
          subst (λ x. IsVouched keys fp x) (some_inj.0 g)
            (subst (λ k. IsVouched keys k b) ((eq_iff j fp).0 q) gs.0)
      at_head false q g rest = rest g

  drop-Genuine :
      (keys : List ApiKeyRecord) (d : List (String × Verified F)) (b : Bool)
      → Genuine keys d
      → Genuine keys (if b then drop 1 d else d)
  drop-Genuine keys d false gs = gs
  drop-Genuine keys [] true gs = tt
  drop-Genuine keys (x ∷ d) true gs = gs.1

  -- The key that is found is stored, and verifies.
  matching-IsKnown :
      (k : String) (keys : List ApiKeyRecord) (r : ApiKeyRecord)
      → matching fl fingerprint verify k keys ≡ some r
      → IsKnown keys k r.name r.role r.key_hash
  unfolding matching
  matching-IsKnown k keys r h = record {
    row = r;
    is_stored = find-Member _ keys r h;
    verifies = find-true (λ x. verify k x.key_hash) keys r h;
    same_name = refl;
    same_role = refl;
    same_hash = refl;
  }

  remember-Genuine :
      (st : AuthState F) (k : String) (r : ApiKeyRecord) (now : F)
      → IsKnown st.api_keys k r.name r.role r.key_hash
      → Genuine st.api_keys st.verified
      → Genuine st.api_keys (remember fl fingerprint verify st (fingerprint k) r now).verified
  unfolding remember
  remember-Genuine st k r now m gs =
      assign-Genuine st.api_keys (fingerprint k) _ _
        (record { raw_key = k; has_print = refl; known = m })
        (drop-Genuine st.api_keys st.verified (nat_leb verified_max_entries (length st.verified))
          gs)

  -- A principal with the name and the role of a stored key that verifies what was presented.
  pub record IsHolder (keys : List ApiKeyRecord) (raw_key : Option String) (p : Principal)
      : Type 0 where
    pub key : String
    pub key_hash : String
    pub presented : raw_key ≡ some key
    pub known : IsKnown keys key p.name p.role key_hash

  -- The cache stays genuine, the table of the keys stays, and who is let in holds a stored key.
  pub record IsSound (keys : List ApiKeyRecord) (raw_key : Option String)
      (out : AuthState F × Result AuthError Principal) : Type 0 where
    pub genuine : Genuine keys out.0.verified
    pub same_keys : out.0.api_keys ≡ keys
    pub holder : Returns (IsHolder keys raw_key) out.1

  spend-IsSound :
      (st : AuthState F) (k key_hash : String) (now : F) (p : Principal)
      → IsKnown st.api_keys k p.name p.role key_hash
      → Genuine st.api_keys st.verified
      → IsSound st.api_keys (some k) (spend fl fingerprint verify st key_hash now p)
  unfolding spend
  spend-IsSound st k key_hash now p m gs = record {
    genuine = gs;
    same_keys = refl;
    holder = by_limit (allow fl st.rate_limiter key_hash now).1;
  }
    where
      by_limit :
          (allowed : Bool)
          → Returns
              (IsHolder st.api_keys (some k))
              (if allowed then ok p else err rate_limit_exceeded)
      by_limit true = record { key = k; key_hash = key_hash; presented = refl; known = m }
      by_limit false = tt

  check_key-IsSound :
      (st : AuthState F) (client : String) (raw_key : Option String) (now : F)
      → Genuine st.api_keys st.verified
      → IsSound st.api_keys raw_key (check_key fl fingerprint verify st client raw_key now)
  unfolding check_key fail_with remember
  check_key-IsSound st client raw_key now gs =
      by_block (blocked fl st.failure_limiter client now).1 raw_key
    where
      st' : AuthState F
      st' = record st { failure_limiter = (blocked fl st.failure_limiter client now).0 }

      by_match :
          (k : String) (o : Option ApiKeyRecord)
          → matching fl fingerprint verify k st.api_keys ≡ o
          → IsSound st.api_keys (some k) (let_in fl fingerprint verify st' client k now o)
      by_match k none h = record { genuine = gs; same_keys = refl; holder = tt }
      by_match k (some r) h =
          let m = matching-IsKnown k st.api_keys r h in
          spend-IsSound (remember fl fingerprint verify st' (fingerprint k) r now) k r.key_hash now
            (principal_of r) m (remember-Genuine st' k r now m gs)

      outcome : Bool → Option String → AuthState F × Result AuthError Principal
      outcome b o = if b then (st', err too_many_failures) else elim o [
        | none ↦ fail_with fl fingerprint verify st' client now missing_key
        | some k ↦
            let_in fl fingerprint verify st' client k now
              (matching fl fingerprint verify k st'.api_keys)
      ]

      by_block : (b : Bool) (o : Option String) → IsSound st.api_keys o (outcome b o)
      by_block true o = record { genuine = gs; same_keys = refl; holder = tt }
      by_block false none = record { genuine = gs; same_keys = refl; holder = tt }
      by_block false (some k) = by_match k _ refl

  -- Whoever is let in holds a stored key: it verifies the key that was presented, and gives the name and
  -- the role. This needs that the cache stands for keys that were verified, which the request keeps,
  -- and that keys of one fingerprint are one.
  pub get_principal-IsSound :
      ((a b : String) → fingerprint a ≡ fingerprint b → a ≡ b)
      → (st : AuthState F) (client : String) (raw_key : Option String) (now : F)
      → Genuine st.api_keys st.verified
      → IsSound st.api_keys
          (given_key raw_key)
          (get_principal fl fingerprint verify st client raw_key now)
  unfolding get_principal cached_principal remove
  get_principal-IsSound one st client raw_key now gs = by_key (given_key raw_key)
    where
      by_expiry :
          (k : String) (e : Verified F) (b : Bool)
          → IsVouched st.api_keys (fingerprint k) e
          → IsSound st.api_keys (some k) (
              by_cache fl fingerprint verify client k now (
                if b
                then (record st { verified = remove (fingerprint k) st.verified }, none)
                else (st, some e)))
      by_expiry k e true v =
          check_key-IsSound (record st { verified = remove (fingerprint k) st.verified }) client
            (some k) now (keep-All _ _ st.verified gs)
      by_expiry k e false v =
          spend-IsSound st k e.key_hash now (record { name = e.name; role = e.role })
            (subst (λ j. IsKnown st.api_keys j e.name e.role e.key_hash)
              (one v.raw_key k v.has_print) v.known)
            gs

      by_entry :
          (k : String) (o : Option (Verified F))
          → lookup (fingerprint k) st.verified ≡ o
          → IsSound st.api_keys (some k) (
              by_cache fl fingerprint verify client k now
                (live_entry fl fingerprint verify st (fingerprint k) now o))
      by_entry k none h = check_key-IsSound st client (some k) now gs
      by_entry k (some e) h =
          by_expiry k e (ltb e.expires_at now)
            (lookup-Genuine st.api_keys (fingerprint k) st.verified e gs h)

      outcome : Option String → AuthState F × Result AuthError Principal
      outcome o = elim o [
        | none ↦ check_key fl fingerprint verify st client none now
        | some k ↦
            by_cache fl fingerprint verify client k now
              (cached_principal fl fingerprint verify st (fingerprint k) now)
      ]

      by_key : (o : Option String) → IsSound st.api_keys o (outcome o)
      by_key none = check_key-IsSound st client none now gs
      by_key (some k) = by_entry k (lookup (fingerprint k) st.verified) refl
