-- ===== src/OAuth/Tokens.antt =====
-- When the client of src/core/auth/oauth2.rs asks its provider for a token, and when the cache
-- answers.
use rapid_gate.Base.{
  ℕ, ◌≤◌, ◌⊎◌, Text, Option, none, some, List, [], ◌∷◌, length, ◌≡◌, ◌≢◌, refl, ap, ◌∙◌, arith,
  Bool-cases, inl, inr,
}
use rapid_gate.Error.{CoreError, ok}
use rapid_gate.RateLimit.Store.{Moka, Keeps}
use rapid_gate.OAuth.Client.{
  OAuth2Config, CachedToken, is_expired, TokenResponse, Grant, exchange_client_credentials,
  exchange_refresh_token, scope_list, cached_token, Acquired, store_token, key_of,
  request_credentials, credentials_after, client_credentials, refresh_token, refresh_or_request,
  token_after, get_token,
}
use rapid_gate.OAuth.Expiry.{
  IsFresh, IsFresh-is_expired, ended-is_expired, issued, cached_token-issued,
}

module _ (m : Moka CachedToken) (request : Grant → Option TokenResponse) (conf : OAuth2Config) where
  open m use {Cache}

  token_after-fresh :
      (now again done : ℕ) (scopes : List Text) (c : Cache) (t : CachedToken)
      → IsFresh now t
      → token_after m request conf now again done scopes c (some t) ≡ (c, [], ok t.access_token)
  token_after-fresh now again done scopes c t fresh = rw (IsFresh-is_expired now t fresh) refl

  -- A fresh token of the cache is given without asking the provider.
  pub get_token-fresh :
      (now again done : ℕ) (scopes : Option (List Text)) (c : Cache) (t : CachedToken)
      → m.get (key_of m request conf (scope_list conf scopes)) c ≡ some t
      → IsFresh now t
      → get_token m request conf now again done scopes c ≡ (c, [], ok t.access_token)
  unfolding get_token
  get_token-fresh now again done scopes c t stored fresh =
      ap (token_after m request conf now again done (scope_list conf scopes) c) stored
      ∙ token_after-fresh now again done (scope_list conf scopes) c t fresh

  -- where an entry of the cache comes from: it was there before, or it is what the provider granted
  -- to the one request that was made
  abbrev pub IsFrom : ℕ → Text → Cache → List Grant → CachedToken → Type 0
  IsFrom done key c requests t =
      (m.get key c ≡ some t)
      ⊎ ((g : Grant) × (r : TokenResponse) × (requests ≡ g ∷ [])
          × (request g ≡ some r)
          × (t ≡ issued done r))

  -- what a flow whose answer comes at `done` has done: it made one request at most, it left every
  -- other key alone, and a token that it gives is in the cache under the key, where it was before or
  -- as the provider granted it
  pub record IsAcquired (done : ℕ) (key : Text) (c : Cache) (a : Acquired m request) : Type 0 where
    pub requests : length a.1 ≤ 1
    pub others : (k : Text) → key ≢ k → m.get k a.0 ≡ m.get k c
    pub stored :
        (token : Text)
        → a.2 ≡ ok token
        → (t : CachedToken) × (m.get key a.0 ≡ some t)
          × (t.access_token ≡ token)
          × IsFrom done key c a.1 t

  module _ (laws : Keeps m) where
    store_token-IsAcquired :
        (done : ℕ) (key : Text) (cause : CoreError) (g : Grant) (c : Cache)
        (answer : Option TokenResponse)
        → request g ≡ answer
        → IsAcquired done key c (store_token m request done key cause g c answer)
    store_token-IsAcquired done key cause g c none asked = record {
      requests = omega arith;
      others = λ k d. refl;
      stored = λ token h. cc;
    }
    store_token-IsAcquired done key cause g c (some r) asked = record {
      requests = omega arith;
      others = λ k d. laws.get-insert_other key k (cached_token done r) c d;
      stored = λ token h. (
        cached_token done r,
        laws.get-insert key (cached_token done r) c,
        unfold cached_token in cc,
        inr (g, r, refl, asked, cached_token-issued done r),
      );
    }

    cached-IsAcquired :
        (done : ℕ) (key : Text) (c : Cache) (t : CachedToken)
        → m.get key c ≡ some t
        → IsAcquired done key c (c, [], ok t.access_token)
    cached-IsAcquired done key c t e = record {
      requests = omega arith;
      others = λ k d. refl;
      stored = λ token h. (t, e, cc, inl e);
    }

    credentials_after-IsAcquired :
        (now done : ℕ) (scopes : List Text) (c : Cache) (o : Option CachedToken)
        → m.get (key_of m request conf scopes) c ≡ o
        → IsAcquired done
            (key_of m request conf scopes)
            c
            (credentials_after m request conf now done scopes c o)
    unfolding request_credentials
    credentials_after-IsAcquired now done scopes c none e =
        store_token-IsAcquired done _ _ _ c (request (exchange_client_credentials scopes)) refl
    credentials_after-IsAcquired now done scopes c (some t) e =
        elim (Bool-cases (is_expired now t)) [
          | inl old ↦ rw old (
              store_token-IsAcquired done _ _ _ c (request (exchange_client_credentials scopes))
                refl)
          | inr fresh ↦ rw fresh (cached-IsAcquired done _ c t e)
        ]

    client_credentials-IsAcquired :
        (now done : ℕ) (scopes : List Text) (c : Cache)
        → IsAcquired done
            (key_of m request conf scopes)
            c
            (client_credentials m request conf now done (some scopes) c)
    unfolding client_credentials
    client_credentials-IsAcquired now done scopes c =
        credentials_after-IsAcquired now done scopes c (m.get (key_of m request conf scopes) c) refl

    refresh_or_request-IsAcquired :
        (again done : ℕ) (scopes : List Text) (c : Cache) (token : Option Text)
        → IsAcquired done
            (key_of m request conf scopes)
            c
            (refresh_or_request m request conf again done scopes c token)
    unfolding refresh_token
    refresh_or_request-IsAcquired again done scopes c none =
        client_credentials-IsAcquired again done scopes c
    refresh_or_request-IsAcquired again done scopes c (some token) =
        store_token-IsAcquired done _ _ _ c (request (exchange_refresh_token token scopes)) refl

    token_after-IsAcquired :
        (now again done : ℕ) (scopes : List Text) (c : Cache) (o : Option CachedToken)
        → m.get (key_of m request conf scopes) c ≡ o
        → IsAcquired done
            (key_of m request conf scopes)
            c
            (token_after m request conf now again done scopes c o)
    token_after-IsAcquired now again done scopes c none e =
        client_credentials-IsAcquired again done scopes c
    token_after-IsAcquired now again done scopes c (some t) e =
        elim (Bool-cases (is_expired now t)) [
          | inl old ↦ rw old (refresh_or_request-IsAcquired again done scopes c t.refresh_token)
          | inr fresh ↦ rw fresh (cached-IsAcquired done _ c t e)
        ]

  -- For as long as the cache evicts nothing, a call makes one request at most, leaves the tokens of
  -- all other keys alone, and has the token that it gives in the cache.
  pub get_token-IsAcquired :
      (now again done : ℕ) (scopes : Option (List Text)) (c : Cache)
      → Keeps m
      → IsAcquired done
          (key_of m request conf (scope_list conf scopes))
          c
          (get_token m request conf now again done scopes c)
  unfolding get_token
  get_token-IsAcquired now again done scopes c laws =
      token_after-IsAcquired laws now again done (scope_list conf scopes) c
        (m.get (key_of m request conf (scope_list conf scopes)) c) refl

  -- what an expired entry costs: one request
  expired-requests :
      (now again done end : ℕ) (scopes : List Text) (c : Cache) (t : CachedToken)
      → m.get (key_of m request conf scopes) c ≡ some t
      → t.expires_at ≡ some end
      → end ≤ now
      → now ≤ again
      → length (token_after m request conf now again done scopes c (some t)).1 ≡ 1
  expired-requests now again done end scopes c t there e old later =
      rw (ended-is_expired now end t e old) (refreshed t.refresh_token)
    where
      asked :
          (cause : CoreError) (g : Grant) (answer : Option TokenResponse)
          → length (store_token m request done (key_of m request conf scopes) cause g c answer).1
            ≡ 1
      asked cause g none = refl
      asked cause g (some r) = refl

      refreshed :
          (token : Option Text)
          → length (refresh_or_request m request conf again done scopes c token).1 ≡ 1
      refreshed (some token) = unfold refresh_token in asked _ _ _
      refreshed none =
          unfold client_credentials in
          rw (there, ended-is_expired again end t e (omega arith))
            (unfold request_credentials in asked _ _ _)

  -- For as long as the cache keeps its entries, which its time to live bounds (300 seconds if the
  -- configuration does not say otherwise): a token that a call gives has an entry in the cache, which
  -- was there before or was granted at `done` with the provider's lifetime. It is given again without
  -- a request before that lifetime ends, and from then on a call makes one request.
  pub get_token-again :
      (now again done : ℕ) (scopes : Option (List Text)) (c : Cache) (token : Text)
      → Keeps m
      → (get_token m request conf now again done scopes c).2 ≡ ok token
      → (t : CachedToken) × (m.get
            (key_of m request conf (scope_list conf scopes))
            (get_token m request conf now again done scopes c).0
          ≡ some t)
        × IsFrom done
            (key_of m request conf (scope_list conf scopes))
            c
            (get_token m request conf now again done scopes c).1
            t
        × ((now' again' done' : ℕ)
            → IsFresh now' t
            → get_token m request conf now' again' done' scopes
                (get_token m request conf now again done scopes c).0
              ≡ ((get_token m request conf now again done scopes c).0, [], ok token))
        × ((now' again' done' end : ℕ)
            → t.expires_at ≡ some end
            → end ≤ now'
            → now' ≤ again'
            → length
                (get_token m request conf now' again' done' scopes
                  (get_token m request conf now again done scopes c).0).1
              ≡ 1)
  unfolding get_token
  get_token-again now again done scopes c token laws h =
      let after = (get_token m request conf now again done scopes c).0 in
      let acquired = get_token-IsAcquired now again done scopes c laws in
      let (t, there, same, origin) = acquired.stored token h in
      (
        t,
        there,
        origin,
        λ now' again' done' fresh.
            get_token-fresh now' again' done' scopes after t there fresh
            ∙ ap (λ (a : Text). (after, [], ok a)) same,
        λ now' again' done' end e old later.
            ap
              (λ o.
                length
                  (token_after m request conf now' again' done' (scope_list conf scopes) after o).1)
              there
            ∙ expired-requests now' again' done' end (scope_list conf scopes) after t there e old
                later,
      )
