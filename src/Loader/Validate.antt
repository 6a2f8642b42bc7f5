-- ===== src/Loader/Validate.antt =====
-- `validate` and its helpers: what the code calls the rules R-3 to R-8, on a parsed configuration.
use rapid_gate.Base.{
  ltb, Bool, not, ◌&&◌, ◌||◌, ◌==◌, none, some, List, [], ◌∷◌, any, Text, codes, text_eq,
  starts_with, ends_with, eq_ignore_ascii_case, len,
}
use rapid_gate.Config.{GatewayConfig, RouteConfig, UpstreamConfig}
use rapid_gate.Error.{config, Result, ok, err, ◌>>◌, guard}
use rapid_gate.Platform.{Platform, to_uppercase}
use rapid_gate.PathNorm.{slash}
use rapid_gate.Url.{host_of}

pub record LoadedConfig : Type 0 where
  pub gateway : GatewayConfig
  pub routes : List RouteConfig

unfoldable pub check_base_url_allowed : Text → List Text → Result (Unit {0})
unfolding host_of eq_ignore_ascii_case
check_base_url_allowed base_url allowlist = elim (host_of base_url) [
  | none ↦ err (config base_url)
  | some host ↦ guard (any (λ h. eq_ignore_ascii_case h host) allowlist) (config host)
]

abbrev pub methods : List Text
methods =
    codes "GET"
    ∷ codes "POST"
    ∷ codes "PUT"
    ∷ codes "DELETE"
    ∷ codes "PATCH"
    ∷ codes "HEAD"
    ∷ codes "OPTIONS"
    ∷ codes "ANY"
    ∷ []

unfoldable pub is_valid_method : Platform → Text → Bool
unfolding to_uppercase text_eq
is_valid_method p m = any (text_eq (to_uppercase p m)) methods

unfoldable pub is_valid_path : Text → Bool
unfolding starts_with ends_with
is_valid_path path = starts_with (codes "/") path && not (ends_with slash path)

-- the first loop: R-3
unfoldable pub check_upstreams : List Text → List UpstreamConfig → Result (Unit {0})
unfolding check_base_url_allowed
check_upstreams hosts [] = ok tt
check_upstreams hosts (up ∷ ups) = do
  check_base_url_allowed up.base_url hosts
  check_upstreams hosts ups

-- the loop over the routes: R-4 to R-6, with the names seen so far
unfoldable pub check_routes : Platform → List Text → List RouteConfig → Result (Unit {0})
unfolding text_eq is_valid_method is_valid_path
check_routes p seen [] = ok tt
check_routes p seen (r ∷ rs) = do
  guard (not (any (text_eq r.name) seen)) (config r.name)
  guard (is_valid_method p r.match_rule.method) (config r.name)
  guard (is_valid_path r.match_rule.path) (config r.name)
  check_routes p (r.name ∷ seen) rs

-- the last loop: R-8
unfoldable pub check_keys : List UpstreamConfig → Result (Unit {0})
unfolding len
check_keys [] = ok tt
check_keys (up ∷ ups) = do guard (not (ltb (len up.api_key) 16)) (config up.id); check_keys ups

unfoldable pub validate : Platform → LoadedConfig → Result (Unit {0})
unfolding check_upstreams check_routes check_keys
validate p cfg = do
  check_upstreams cfg.gateway.upstream_allowlist.hosts cfg.gateway.upstreams
  check_routes p [] cfg.routes
  guard
      (not (cfg.gateway.defaults.rate_limit.rps == 0 || cfg.gateway.defaults.rate_limit.burst == 0))
      (config (codes "default rate_limit"))
  check_keys cfg.gateway.upstreams
