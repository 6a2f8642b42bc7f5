-- ===== src/Loader/Tests.antt =====
-- The unit tests of src/service/config_loader.rs.
use rapid_gate.Base.{
  true, ascii_upper, List, [], ◌∷◌, Option, some, none, ℕ, Text, codes, ◌≡◌, refl, text_eq,
  if◌then◌else◌,
}
use rapid_gate.Error.{ok, err, config}
use rapid_gate.Platform.{ascii_platform}
use rapid_gate.Routing.Table.{new}
use rapid_gate.Loader.Validate.{check_base_url_allowed, validate}
use rapid_gate.Loader.Exact.{exact_from, validate-new}
use rapid_gate.Routing.Table.{Router}
use rapid_gate.Loader.Load.{Files, reload}
use rapid_gate.Loader.Reload.{Reloaded, reload-Reloaded}
use rapid_gate.Samples.{chat_route, loaded}
use rapid_gate.Loader.Expand.{expand_placeholders}

abbrev env : List ℕ → Option Text
unfolding text_eq
env name = if text_eq name (codes "RGD_TEST_PLACEHOLDER") then some (codes "hello") else none

expand_simple :
    expand_placeholders env (codes "a ${RGD_TEST_PLACEHOLDER} b") ≡ some (ok (codes "a hello b"))
unfolding expand_placeholders text_eq
expand_simple = refl

expand_missing_raises :
    expand_placeholders env (codes "${RGD_TEST_MISSING}")
    ≡ some (err (config (codes "RGD_TEST_MISSING")))
unfolding expand_placeholders text_eq
expand_missing_raises = refl

check_allowlist :
    check_base_url_allowed (codes "https://api.openai.com/v1") (codes "api.openai.com" ∷ []) ≡ ok tt
unfolding check_base_url_allowed
check_allowlist = refl

check_allowlist_evil :
    check_base_url_allowed (codes "https://evil.com/v1") (codes "api.openai.com" ∷ [])
    ≡ err (config (codes "evil.com"))
unfolding check_base_url_allowed
check_allowlist_evil = refl

accepted : validate ascii_platform loaded ≡ ok tt
unfolding validate ascii_upper
accepted = refl

validate-new_example :
    new ascii_platform (chat_route ∷ [])
    ≡ some (record {
      routes = chat_route ∷ [];
      compiled = exact_from ascii_platform 0 (chat_route ∷ []);
    })
validate-new_example = validate-new ascii_platform loaded accepted

-- files with a configuration that parses, and a router that a reload finds empty
abbrev files : Files
files = record {
  exists = λ path. true;
  read = λ path. some (codes "routes");
  read_dir = λ path. some [];
  join_path = λ a b. b;
  extension = λ path. none;
}

abbrev empty_router : Router Text
empty_router = record { table = record { routes = []; compiled = [] } }

reload-Reloaded_example :
    (after : Router Text) × (reload env files ascii_platform (λ text. some loaded) empty_router
      ≡ some after)
    × Reloaded env files ascii_platform (λ text. some loaded) empty_router after
reload-Reloaded_example =
    reload-Reloaded env files ascii_platform (λ text. some loaded) empty_router
