-- ===== src/OAuth/Refused.antt =====
-- What the client of src/core/auth/oauth2.rs refuses, and what happens when its provider refuses.
use rapid_gate.Base.{
  ℕ, Bool, true, Text, codes, Option, none, some, List, [], ◌∷◌, ◌≡◌, refl, ap, ◌∙◌, arith,
  Bool-cases, inl, inr,
}
use rapid_gate.Error.{auth, err}
use rapid_gate.Loader.Expand.{utf8}
use rapid_gate.RateLimit.Store.{Moka}
use rapid_gate.Auth.Credential.{IsEquality, SameBytes}
use rapid_gate.OAuth.Client.{
  OAuth2Config, CachedToken, is_expired, TokenResponse, Grant, exchange_refresh_token, scope_list,
  key_of, exchange_authorization_code, refresh_token, token_after, get_token,
}

-- an entry of the cache that can be refreshed
abbrev pub entry : Text → Option ℕ → Text → CachedToken
entry old expiry token = record {
  access_token = old;
  expires_at = expiry;
  refresh_token = some token;
}

module _ (m : Moka CachedToken) (request : Grant → Option TokenResponse) (conf : OAuth2Config) where
  open m use {Cache}

  -- A callback whose state has not the bytes of the expected one is refused: nothing is asked of the
  -- provider and the cache is as before.
  pub exchange_authorization_code-mismatch :
      (ct_eq : List ℕ → List ℕ → Bool) (now : ℕ) (code expected actual : Text) (c : Cache)
      → IsEquality ct_eq
      → ¬ SameBytes expected actual
      → exchange_authorization_code m request ct_eq conf now code expected actual c
        ≡ (c, [], err (auth (codes "oauth2 state mismatch")))
  unfolding exchange_authorization_code
  exchange_authorization_code-mismatch ct_eq now code expected actual c eq differ =
      elim (Bool-cases (ct_eq (utf8 expected) (utf8 actual))) [
        | inl same ↦ absurd (differ ((eq (utf8 expected) (utf8 actual)).0 same))
        | inr other ↦ ground arith
      ]

  token_after-refused :
      (now again done : ℕ) (scopes : List Text) (c : Cache) (token old : Text) (expiry : Option ℕ)
      → is_expired now (entry old expiry token) ≡ true
      → request (exchange_refresh_token token scopes) ≡ none
      → token_after m request conf now again done scopes c (some (entry old expiry token)) ≡ (
        c,
        exchange_refresh_token token scopes ∷ [],
        err (auth (codes "oauth2 token refresh failed")),
      )
  unfolding refresh_token
  token_after-refused now again done scopes c token old expiry expired refused =
      rw (expired, refused) refl

  -- Where the entry of the cache has expired and the provider refuses its refresh token, the call
  -- fails and the entry stays: no other flow is tried, in this call or a later one.
  pub get_token-refused :
      (now again done : ℕ) (scopes : Option (List Text)) (c : Cache) (token old : Text)
      (expiry : Option ℕ)
      → m.get (key_of m request conf (scope_list conf scopes)) c ≡ some (entry old expiry token)
      → is_expired now (entry old expiry token) ≡ true
      → request (exchange_refresh_token token (scope_list conf scopes)) ≡ none
      → get_token m request conf now again done scopes c ≡ (
        c,
        exchange_refresh_token token (scope_list conf scopes) ∷ [],
        err (auth (codes "oauth2 token refresh failed")),
      )
  unfolding get_token
  get_token-refused now again done scopes c token old expiry stored expired refused =
      ap (token_after m request conf now again done (scope_list conf scopes) c) stored
      ∙ token_after-refused now again done (scope_list conf scopes) c token old expiry expired
          refused
