-- ===== src/Admin/Views.antt =====
-- src/service/admin/routes.rs: the JSON of the four views.
use rapid_gate.Base.{ℕ, Text, codes, length, Option, none, some, List, [], ◌∷◌, map}
use rapid_gate.Config.{
  RouteConfig, UpstreamConfig, UpstreamRef, RateLimitConfig, LoadBalancer, round_robin, random,
}
use rapid_gate.Json.{Value, null, string, json_object, json_array, json_number}
use rapid_gate.Routing.Table.{Router, snapshot, len}

-- what the views read of `AppState`
pub record AdminState (R : Type 0) : Type 0 where
  pub route_table : Router R
  pub upstream_configs : List UpstreamConfig
  pub active_limiters : ℕ
  pub default_rate_limit : RateLimitConfig
  pub config_dir : Text
  pub max_body_bytes : ℕ
  pub request_timeout_ms : ℕ

-- an `Option<&str>`
abbrev pub upstream_name : Option UpstreamRef → Value
upstream_name none = null
upstream_name (some u) = string u.id

unfoldable pub route_view : RouteConfig → Value
route_view r = json_object (
    (codes "name", string r.name)
    ∷ (codes "method", string r.match_rule.method)
    ∷ (codes "path", string r.match_rule.path)
    ∷ (codes "upstream", upstream_name r.upstream)
    ∷ [])

-- the `Debug` of the enum
abbrev pub load_balancer_name : LoadBalancer → Text
load_balancer_name round_robin = codes "RoundRobin"
load_balancer_name random = codes "Random"

unfoldable pub upstream_view : UpstreamConfig → Value
upstream_view u = json_object (
    (codes "id", string u.id)
    ∷ (codes "provider", string u.provider)
    ∷ (codes "base_url", string u.base_url)
    ∷ (codes "api_key", string (codes "***REDACTED***"))
    ∷ (codes "load_balancer", string (load_balancer_name u.load_balancer))
    ∷ (codes "models", json_array (map (λ m. string m) u.models))
    ∷ [])

unfoldable pub limit_view : RateLimitConfig → Value
limit_view l = json_object (
    (codes "algorithm", string l.algorithm)
    ∷ (codes "rps", json_number l.rps)
    ∷ (codes "burst", json_number l.burst)
    ∷ [])

module _ {R : Type 0} where
  unfoldable pub get_routes : AdminState R → Value
  unfolding route_view snapshot
  get_routes s =
      json_object
        ((codes "routes", json_array (map route_view (snapshot s.route_table).routes)) ∷ [])

  unfoldable pub get_upstreams : AdminState R → Value
  unfolding upstream_view
  get_upstreams s =
      json_object ((codes "upstreams", json_array (map upstream_view s.upstream_configs)) ∷ [])

  unfoldable pub get_limits : AdminState R → Value
  unfolding limit_view
  get_limits s = json_object (
      (codes "active_limiters", json_number s.active_limiters)
      ∷ (codes "default", limit_view s.default_rate_limit)
      ∷ [])

  unfoldable pub get_config : AdminState R → Value
  unfolding limit_view len snapshot
  get_config s = json_object (
      (codes "config_dir", string s.config_dir)
      ∷ (codes "max_body_bytes", json_number s.max_body_bytes)
      ∷ (codes "request_timeout_ms", json_number s.request_timeout_ms)
      ∷ (codes "upstream_count", json_number (length s.upstream_configs))
      ∷ (codes "route_count", json_number (len (snapshot s.route_table)))
      ∷ (codes "default_rate_limit", limit_view s.default_rate_limit)
      ∷ [])
