-- ===== src/OAuth/Tests.antt =====
-- The unit tests of src/core/auth/oauth2.rs, against a provider that grants every request.
use rapid_gate.Base.{
  ℕ, false, length, ◌≤◌, codes, text_eq_iff, text_eq_refl, Option, none, some, [], ◌∷◌, ◌≡◌, refl,
  arith,
}
use mathlib.Core.List.Perm
use rapid_gate.Error.{ok, err, config}
use rapid_gate.RateLimit.Store.{Moka, Keeps}
use rapid_gate.Samples.{table, fresh}
use rapid_gate.OAuth.Scopes.{build_cache_key, build_cache_key-Perm}
use rapid_gate.OAuth.Client.{
  OAuth2Config, CachedToken, TokenResponse, Grant, scope_list, key_of, get_token, new,
  client_credentials, request_credentials,
}
use rapid_gate.OAuth.Expiry.{IsFresh}
use rapid_gate.OAuth.Tokens.{IsAcquired, IsFrom, get_token-IsAcquired, get_token-again}

abbrev conf : OAuth2Config
conf = record {
  client_id = codes "test-client";
  client_secret = codes "test-secret";
  auth_url = codes "https://example.com/oauth/authorize";
  token_url = codes "https://example.com/oauth/token";
  redirect_url = some (codes "http://localhost:8080/callback");
  default_scopes = codes "read" ∷ codes "write" ∷ [];
  cache_ttl_secs = 300;
}

abbrev tokens : Moka CachedToken
tokens = table CachedToken

tokens_laws : Keeps tokens
tokens_laws = record {
  get-build = λ k. refl;
  get-insert = λ k v c. ground (arith, text_eq_refl k);
  get-insert_other = λ k k' v c d. ground (arith, text_eq_iff k k');
}

abbrev grant_all : Grant → Option TokenResponse
grant_all g =
    some (record { access_token = codes "tok"; expires_in = some 1000; refresh_token = none })

cache_key_sorted :
    build_cache_key (codes "test-client") (codes "write" ∷ codes "read" ∷ [])
    ≡ codes "test-client:read,write"
unfolding build_cache_key
cache_key_sorted = refl

invalid_auth_url_rejected : new (λ url. false) tokens conf ≡ err (config (codes "invalid auth_url"))
unfolding new
invalid_auth_url_rejected = refl

build_cache_key-Perm_example :
    build_cache_key (codes "test-client") (codes "write" ∷ codes "read" ∷ [])
    ≡ build_cache_key (codes "test-client") (codes "read" ∷ codes "write" ∷ [])
build_cache_key-Perm_example =
    build_cache_key-Perm (codes "test-client") (codes "write" ∷ codes "read" ∷ [])
      (codes "read" ∷ codes "write" ∷ []) (Perm.swap (codes "read") (codes "write") [])

get_token-IsAcquired_example :
    IsAcquired tokens grant_all conf 0
      (key_of tokens grant_all conf (scope_list conf none))
      fresh
      (get_token tokens grant_all conf 0 0 0 none fresh)
get_token-IsAcquired_example =
    get_token-IsAcquired tokens grant_all conf 0 0 0 none fresh tokens_laws

granted : (get_token tokens grant_all conf 0 0 0 none fresh).2 ≡ ok (codes "tok")
unfolding get_token client_credentials request_credentials
granted = refl

get_token-again_example :
    (t : CachedToken) × (tokens.get
        (key_of tokens grant_all conf (scope_list conf none))
        (get_token tokens grant_all conf 0 0 0 none fresh).0
      ≡ some t)
    × IsFrom tokens grant_all conf 0
        (key_of tokens grant_all conf (scope_list conf none))
        fresh
        (get_token tokens grant_all conf 0 0 0 none fresh).1
        t
    × ((now' again' done' : ℕ)
        → IsFresh now' t
        → get_token tokens grant_all conf now' again' done' none
            (get_token tokens grant_all conf 0 0 0 none fresh).0
          ≡ ((get_token tokens grant_all conf 0 0 0 none fresh).0, [], ok (codes "tok")))
    × ((now' again' done' end : ℕ)
        → t.expires_at ≡ some end
        → end ≤ now'
        → now' ≤ again'
        → length
            (get_token tokens grant_all conf now' again' done' none
              (get_token tokens grant_all conf 0 0 0 none fresh).0).1
          ≡ 1)
get_token-again_example =
    get_token-again tokens grant_all conf 0 0 0 none fresh (codes "tok") tokens_laws granted
