-- ===== src/Admin/Tests.antt =====
-- The views and the errors at work.
use rapid_gate.Base.{Text, codes, none, some, ◌≡◌, refl}
use rapid_gate.Error.{core, route_not_found}
use rapid_gate.Samples.{chat_table, upstreams, rates}
use rapid_gate.Admin.Views.{AdminState, get_routes, get_upstreams, get_limits, get_config}
use rapid_gate.Admin.Errors.{Response, into_response, recovery}
use rapid_gate.Admin.Redacted.{with_keys, views-redacted}

abbrev state : AdminState Text
state = record {
  route_table = record { table = chat_table };
  upstream_configs = upstreams;
  active_limiters = 2;
  default_rate_limit = rates;
  config_dir = codes "./config";
  max_body_bytes = 1024;
  request_timeout_ms = 30_000;
}

views-redacted_example :
    (get_routes (record state { upstream_configs = with_keys (λ u. codes "x") upstreams })
      ≡ get_routes state)
    × (get_upstreams (record state { upstream_configs = with_keys (λ u. codes "x") upstreams })
        ≡ get_upstreams state)
    × (get_limits (record state { upstream_configs = with_keys (λ u. codes "x") upstreams })
        ≡ get_limits state)
    × (get_config (record state { upstream_configs = with_keys (λ u. codes "x") upstreams })
        ≡ get_config state)
views-redacted_example = views-redacted state (λ u. codes "x")

error_response_status :
    (into_response (λ e. codes "no route") (core (route_not_found (codes "/x")))).status ≡ 404
unfolding into_response
error_response_status = refl

panicking_handler_returns_500 :
    (recovery (λ (r : Response). r) (some (codes "ABC")) none).status ≡ 500
unfolding recovery
panicking_handler_returns_500 = refl
