-- ===== src/Auth/Tests.antt =====
-- The unit tests of src/service/middleware/auth.rs and src/core/auth/apikey.rs, and concrete runs.
use rapid_gate.Base.{some, [], ◌∷◌, codes, text_eq, text_eq_iff, ◌≡◌, refl, ◌↔◌, ◌⊎◌, arith}
use rapid_gate.Config.{AuthConfig, bearer, api_key}
use rapid_gate.Error.{ok, err, auth}
use rapid_gate.Loader.Expand.{utf8}
use rapid_gate.Auth.{
  pass, unauthorized, misconfigured, check_route_auth, Authenticator, new, register, unregister,
  verify,
}
use rapid_gate.Auth.Credential.{IsEquality, SameBytes}
use rapid_gate.Auth.Keys.{verify-registered}

compares : IsEquality text_eq
compares s t = text_eq_iff s t

abbrev secret : AuthConfig
secret = record { kind = bearer; keys = codes "secret-token" ∷ [] }

bearer_accepts_valid_key :
    check_route_auth text_eq secret (some (codes "Bearer secret-token")) ≡ pass
unfolding check_route_auth text_eq utf8
bearer_accepts_valid_key = refl

bearer_rejects_wrong_key :
    check_route_auth text_eq secret (some (codes "Bearer wrong-key")) ≡ unauthorized
unfolding check_route_auth text_eq utf8
bearer_rejects_wrong_key = refl

empty_keys_returns_config_error :
    check_route_auth text_eq (record { kind = bearer; keys = [] }) (some (codes "Bearer anything"))
    ≡ misconfigured
unfolding check_route_auth
empty_keys_returns_config_error = refl

apikey_accepts_matching_key :
    check_route_auth text_eq
      (record { kind = api_key; keys = codes "sk-abc" ∷ [] })
      (some (codes "sk-abc"))
    ≡ pass
unfolding check_route_auth text_eq utf8
apikey_accepts_matching_key = refl

rejects_empty_credential :
    verify text_eq (register (codes "sk-test") new) (codes "")
    ≡ err (auth (codes "invalid or missing api key"))
unfolding verify register new text_eq
rejects_empty_credential = refl

abbrev one_key : Authenticator
one_key = record { keys = codes "a" ∷ [] }

verify-registered_example :
    ((verify text_eq (register (codes "b") one_key) (codes "b") ≡ ok tt)
      ↔ (SameBytes (codes "b") (codes "b") ⊎ (verify text_eq one_key (codes "b") ≡ ok tt)))
    × ((verify text_eq (unregister (codes "b") one_key) (codes "b") ≡ ok tt)
        ↔ ((verify text_eq one_key (codes "b") ≡ ok tt) × (SameBytes (codes "b") (codes "b") → ⊥)))
verify-registered_example =
    verify-registered text_eq one_key (codes "b") (codes "b") compares (omega arith, tt)
      ((omega arith, tt), tt)
