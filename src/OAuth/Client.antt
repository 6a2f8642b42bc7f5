-- ===== src/OAuth/Client.antt =====
-- The client of src/core/auth/oauth2.rs: its configuration, its cache and its flows. The crate
-- `oauth2`, which talks to the provider, and the cache of the crate `moka` are parameters; times are
-- instants in milliseconds.
use rapid_gate.Base.{
  ℕ, ◌+◌, Bool, false, not, ◌==◌, ◌||◌, leb, Text, codes, len, Option, none, some, List, [], ◌∷◌,
  if◌then◌else◌,
}
use rapid_gate.Error.{CoreError, config, auth, Result, ok, err, guard, ◌>>◌}
use rapid_gate.Loader.Expand.{utf8}
use rapid_gate.RateLimit.Store.{Moka}
use rapid_gate.OAuth.Scopes.{build_cache_key}

pub record OAuth2Config : Type 0 where
  pub client_id : Text
  pub client_secret : Text
  pub auth_url : Text
  pub token_url : Text
  pub redirect_url : Option Text
  pub default_scopes : List Text
  pub cache_ttl_secs : ℕ

abbrev pub default_cache_ttl_secs : ℕ
default_cache_ttl_secs = 300

pub record CachedToken : Type 0 where
  pub access_token : Text
  pub expires_at : Option ℕ
  pub refresh_token : Option Text

unfoldable pub is_expired : ℕ → CachedToken → Bool
is_expired now t = elim t.expires_at [ none ↦ false | some expiry ↦ leb expiry now ]

-- what the provider answers to a request for a token, the lifetime in milliseconds
pub record TokenResponse : Type 0 where
  pub access_token : Text
  pub expires_in : Option ℕ
  pub refresh_token : Option Text

-- the requests that the client makes
pub data Grant : Type 0 where
  exchange_code : Text → Grant
  exchange_client_credentials : List Text → Grant
  exchange_refresh_token : Text → List Text → Grant

-- `OAuth2Client::new` refuses what is not a URL.
unfoldable pub check_redirect : (Text → Bool) → Option Text → Result (Unit {0})
check_redirect is_url none = ok tt
check_redirect is_url (some url) = guard (is_url url) (config (codes "invalid redirect_url"))

unfoldable pub new :
    (Text → Bool) → (m : Moka CachedToken) → OAuth2Config → Result (m.Cache × OAuth2Config)
unfolding check_redirect
new is_url m c = do
  guard (is_url c.auth_url) (config (codes "invalid auth_url"))
  guard (is_url c.token_url) (config (codes "invalid token_url"))
  check_redirect is_url c.redirect_url
  ok (m.build, c)

-- the scopes that a call asks for
unfoldable pub scope_list : OAuth2Config → Option (List Text) → List Text
scope_list c none = c.default_scopes
scope_list c (some scopes) = scopes

-- `authorize` gives the URL for the scopes, and the secret that is to come back.
unfoldable pub authorization_url :
    (List Text → Text × Text) → OAuth2Config → Option (List Text) → Text × Text
unfolding scope_list
authorization_url authorize c scopes = authorize (scope_list c scopes)

-- the entry for a token that arrives at `now`
unfoldable pub cached_token : ℕ → TokenResponse → CachedToken
cached_token now r = record {
  access_token = r.access_token;
  expires_at = elim r.expires_in [ none ↦ none | some lifetime ↦ some (now + lifetime) ];
  refresh_token = r.refresh_token;
}

module _ (m : Moka CachedToken) (request : Grant → Option TokenResponse) where
  open m use {Cache}

  -- the cache afterwards, the requests that were made, and the token
  abbrev pub Acquired : Type 0
  Acquired = Cache × List Grant × Result Text

  -- the end of each flow: the token is stored under the key, or the cause is told
  abbrev pub store_token : ℕ → Text → CoreError → Grant → Cache → Option TokenResponse → Acquired
  store_token now key cause grant c none = (c, grant ∷ [], err cause)
  store_token now key cause grant c (some r) =
      (m.insert key (cached_token now r) c, grant ∷ [], ok r.access_token)

  abbrev pub key_of : OAuth2Config → List Text → Text
  key_of conf scopes = build_cache_key conf.client_id scopes

  -- `ct_eq` compares two slices of one length; `now` is when the answer arrives.
  unfoldable pub exchange_authorization_code :
      (List ℕ → List ℕ → Bool) → OAuth2Config → ℕ → Text → Text → Text → Cache → Acquired
  exchange_authorization_code ct_eq conf now code expected_state actual_state c =
      if not (len expected_state == len actual_state)
        || not (ct_eq (utf8 expected_state) (utf8 actual_state))
      then (c, [], err (auth (codes "oauth2 state mismatch")))
      else store_token now (key_of conf conf.default_scopes)
          (auth (codes "oauth2 code exchange failed")) (exchange_code code) c
          (request (exchange_code code))

  unfoldable pub request_credentials : OAuth2Config → ℕ → List Text → Cache → Acquired
  request_credentials conf now scopes c =
      store_token now (key_of conf scopes) (auth (codes "oauth2 client_credentials failed"))
        (exchange_client_credentials scopes) c (request (exchange_client_credentials scopes))

  -- a token of the cache is taken for as long as it has not expired
  abbrev pub credentials_after :
      OAuth2Config → ℕ → ℕ → List Text → Cache → Option CachedToken → Acquired
  credentials_after conf now done scopes c none = request_credentials conf done scopes c
  credentials_after conf now done scopes c (some t) =
      if is_expired now t
      then request_credentials conf done scopes c
      else (c, [], ok t.access_token)

  -- The cache is read at `now`, and an answer arrives at `done`.
  unfoldable pub client_credentials : OAuth2Config → ℕ → ℕ → Option (List Text) → Cache → Acquired
  unfolding scope_list
  client_credentials conf now done scopes c =
      credentials_after conf now done (scope_list conf scopes) c
        (m.get (key_of conf (scope_list conf scopes)) c)

  unfoldable pub refresh_token : OAuth2Config → ℕ → Text → Option (List Text) → Cache → Acquired
  unfolding scope_list
  refresh_token conf now token scopes c =
      store_token now (key_of conf (scope_list conf scopes))
        (auth (codes "oauth2 token refresh failed"))
        (exchange_refresh_token token (scope_list conf scopes)) c
        (request (exchange_refresh_token token (scope_list conf scopes)))

  -- an entry that has expired is refreshed if it has a refresh token
  abbrev pub refresh_or_request : OAuth2Config → ℕ → ℕ → List Text → Cache → Option Text → Acquired
  refresh_or_request conf again done scopes c none =
      client_credentials conf again done (some scopes) c
  refresh_or_request conf again done scopes c (some token) =
      refresh_token conf done token (some scopes) c

  abbrev pub token_after :
      OAuth2Config → ℕ → ℕ → ℕ → List Text → Cache → Option CachedToken → Acquired
  token_after conf now again done scopes c none = client_credentials conf again done (some scopes) c
  token_after conf now again done scopes c (some t) =
      if is_expired now t
      then refresh_or_request conf again done scopes c t.refresh_token
      else (c, [], ok t.access_token)

  -- The cache is read at `now` and, where no token could be refreshed, once more at `again`; an
  -- answer arrives at `done`.
  unfoldable pub get_token : OAuth2Config → ℕ → ℕ → ℕ → Option (List Text) → Cache → Acquired
  unfolding scope_list
  get_token conf now again done scopes c =
      token_after conf now again done (scope_list conf scopes) c
        (m.get (key_of conf (scope_list conf scopes)) c)
