-- ===== src/Auth/Routes.antt =====
-- Which requests `check_route_auth` and `admin_auth` let pass.
use rapid_gate.Base.{Option, none, some, List, [], ◌++◌, Text, codes, trim, ◌≡◌, ap}
use rapid_gate.Config.{AuthKind, open_route, bearer, api_key}
use rapid_gate.Auth.{AuthType, by_bearer, by_api_key, extract_credential}
use rapid_gate.Auth.Credential.{IsKnown}

-- The credential is one that a route of the kind takes, and its key is known: an open route takes
-- anything, a bearer route only a bearer token, and an API-key route a key in any form, a bearer token
-- among them.
abbrev pub Presents : AuthKind → List Text → Option (AuthType × Text) → Type 0
Presents open_route keys credential = Unit
Presents bearer keys (some (by_bearer, key)) = IsKnown key keys
Presents bearer keys (some (by_api_key, key)) = ⊥
Presents bearer keys none = ⊥
Presents api_key keys (some (type, key)) = IsKnown key keys
Presents api_key keys none = ⊥

-- a route that needs a key and has none
abbrev pub Keyless : AuthKind → List Text → Type 0
Keyless open_route keys = ⊥
Keyless bearer keys = keys ≡ []
Keyless api_key keys = keys ≡ []

-- A header "Bearer " or "ApiKey ", followed by a key without white space around it, is read as that
-- form and that key.
pub extract_credential-written :
    (key : Text)
    → trim key ≡ key
    → (extract_credential (some (codes "Bearer " ++ key)) ≡ some (by_bearer, key))
      × (extract_credential (some (codes "ApiKey " ++ key)) ≡ some (by_api_key, key))
unfolding extract_credential
extract_credential-written key h =
    (ap (λ k. some (by_bearer, k)) h, ap (λ k. some (by_api_key, k)) h)
