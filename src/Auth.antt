-- ===== src/Auth.antt =====
-- Credentials: src/service/middleware/auth.rs, src/service/admin/auth.rs and src/core/auth/apikey.rs.
-- The comparison of byte slices in constant time is that of the crate `subtle`, a parameter; a
-- header is the text that `to_str` gives, and `none` where it is missing or no text.
pub mod Bytes
pub mod Credential
pub mod Routes
pub mod Keys
pub mod Admin
pub mod Jwt
mod Tests
use rapid_gate.Base.{
  ℕ, ◌==◌, Bool, true, false, not, Option, none, some, List, [], ◌∷◌, any, keep, Text, codes,
  text_eq, len, is_empty, strip_prefix, trim, if◌then◌else◌,
}
use rapid_gate.Base.Maybe.{◌>>=◌}
use rapid_gate.Config.{AuthKind, AuthConfig, open_route, bearer, api_key}
use rapid_gate.Error.{CoreError, auth, Result, ok, err}
use rapid_gate.Loader.Expand.{utf8}

pub data AuthType : Type 0 where
  by_bearer by_api_key : AuthType

-- the answer of a check; `misconfigured` is status 500, and `unauthorized` status 401
pub data Verdict : Type 0 where
  pass unauthorized misconfigured : Verdict

unfoldable pub extract_credential : Option Text → Option (AuthType × Text)
unfolding strip_prefix trim
extract_credential header = do
  value ← header
  elim (strip_prefix (codes "Bearer ") value) [
    | some token ↦ some (by_bearer, trim token)
    | none ↦ elim (strip_prefix (codes "ApiKey ") value) [
      | some key ↦ some (by_api_key, trim key)
      | none ↦ some (by_api_key, trim value)
    ]
  ]

-- `extract_bearer` of the admin interface
unfoldable pub extract_bearer : Option Text → Option Text
unfolding strip_prefix trim is_empty
extract_bearer header = do
  value ← header
  token ← strip_prefix (codes "Bearer ") value
  if is_empty (trim token) then none else some (trim token)

-- `ApiKeyAuthenticator`: the set as a list without an order that counts
pub record Authenticator : Type 0 where
  pub keys : List Text

unfoldable pub new : Authenticator
new = record { keys = [] }

-- `HashSet::insert` keeps an element that is there.
unfoldable pub register : Text → Authenticator → Authenticator
unfolding text_eq
register key a = if any (text_eq key) a.keys then a else record { keys = key ∷ a.keys }

unfoldable pub unregister : Text → Authenticator → Authenticator
unfolding text_eq
unregister key a = record { keys = keep (λ k. not (text_eq key k)) a.keys }

module _ (ct_eq : List ℕ → List ℕ → Bool) where
  unfoldable pub const_eq : Text → Text → Bool
  unfolding len
  const_eq a b = if not (len a == len b) then false else ct_eq (utf8 a) (utf8 b)

  abbrev pub verdict : Text → List Text → Verdict
  verdict provided keys =
      if any (λ expected. const_eq provided expected) keys then pass else unauthorized

  abbrev pub check_bearer : Option (AuthType × Text) → List Text → Verdict
  check_bearer (some (by_bearer, key)) keys = verdict key keys
  check_bearer (some (by_api_key, key)) keys = unauthorized
  check_bearer none keys = unauthorized

  abbrev pub check_api_key : Option (AuthType × Text) → List Text → Verdict
  check_api_key (some (type, key)) keys = verdict key keys
  check_api_key none keys = unauthorized

  -- the arm of `check_route_auth` for each kind
  unfoldable pub check_kind : AuthKind → List Text → Option (AuthType × Text) → Verdict
  unfolding const_eq
  check_kind open_route keys credential = pass
  check_kind bearer [] credential = misconfigured
  check_kind bearer (k ∷ ks) credential = check_bearer credential (k ∷ ks)
  check_kind api_key [] credential = misconfigured
  check_kind api_key (k ∷ ks) credential = check_api_key credential (k ∷ ks)

  unfoldable pub check_route_auth : AuthConfig → Option Text → Verdict
  unfolding check_kind extract_credential
  check_route_auth config header = check_kind config.kind config.keys (extract_credential header)

  abbrev pub admin_compare : Text → Option Text → Verdict
  admin_compare expected none = unauthorized
  admin_compare expected (some provided) =
      if not (len provided == len expected)
      then unauthorized
      else if ct_eq (utf8 provided) (utf8 expected)
      then pass
      else unauthorized

  -- `admin_auth` with the value of RGD_ADMIN_TOKEN; `pass` runs the rest of the chain
  unfoldable pub admin_auth : Option Text → Option Text → Verdict
  unfolding is_empty len extract_bearer
  admin_auth none header = unauthorized
  admin_auth (some t) header =
      if is_empty t then unauthorized else admin_compare t (extract_bearer header)

  -- the loop of `verify`: the flag is set once a key matches and never cleared
  unfoldable pub verify_from : ℕ → List Text → Text → ℕ
  unfolding len
  verify_from flag [] credential = flag
  verify_from flag (stored ∷ ks) credential =
      verify_from
        (if not (len stored == len credential)
          then flag
          else if ct_eq (utf8 stored) (utf8 credential)
          then 1
          else flag)
        ks credential

  unfoldable pub verify : Authenticator → Text → Result (Unit {0})
  unfolding verify_from
  verify a credential =
      if verify_from 0 a.keys credential == 1
      then ok tt
      else err (auth (codes "invalid or missing api key"))
