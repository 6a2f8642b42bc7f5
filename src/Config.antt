-- ===== src/Config.antt =====
-- The configuration data of src/core/config: the structs and enums that serde fills.
use rapid_gate.Base.{ℕ, Bool, Option, List, Text}

pub data AuthKind : Type 0 where
  open_route bearer api_key : AuthKind

pub record AuthConfig : Type 0 where
  pub kind : AuthKind
  pub keys : List Text

pub record HeaderMatch : Type 0 where
  pub name : Text
  pub value : Text
  pub regex : Bool

pub record CookieMatch : Type 0 where
  pub name : Text
  pub value : Text

pub record QueryMatch : Type 0 where
  pub name : Text
  pub value : Text

pub record MatchRule : Type 0 where
  pub method : Text
  pub path : Text
  pub host : Option Text
  pub headers : List HeaderMatch
  pub query : List QueryMatch
  pub cookies : List CookieMatch

-- `weight` is a u32
pub record CanaryTarget : Type 0 where
  pub upstream_id : Text
  pub weight : ℕ

pub record CanaryConfig : Type 0 where
  pub strategy : Text
  pub targets : List CanaryTarget

pub record UpstreamRef : Type 0 where
  pub id : Text

-- `rps` and `burst` are u32
pub record RateLimitConfig : Type 0 where
  pub algorithm : Text
  pub rps : ℕ
  pub burst : ℕ

pub record RouteConfig : Type 0 where
  pub name : Text
  pub match_rule : MatchRule
  pub upstream : Option UpstreamRef
  pub auth : AuthConfig
  pub rate_limit : Option RateLimitConfig
  pub canary : Option CanaryConfig

pub data LoadBalancer : Type 0 where
  round_robin random : LoadBalancer

pub record UpstreamPoolConfig : Type 0 where
  pub idle_timeout_secs : ℕ
  pub max_idle_per_host : ℕ

pub record UpstreamConfig : Type 0 where
  pub id : Text
  pub provider : Text
  pub base_url : Text
  pub api_key : Text
  pub load_balancer : LoadBalancer
  pub models : List Text
  pub timeout_ms : Option ℕ
  pub pool : Option UpstreamPoolConfig
  pub max_retries : Option ℕ

pub record SsrfConfig : Type 0 where
  pub enabled : Bool
  pub allow_list : List Text

pub record LoggingConfig : Type 0 where
  pub level : Text
  pub format : Text

pub record UpstreamAllowlist : Type 0 where
  pub hosts : List Text

pub record BreakerDefaults : Type 0 where
  pub failure_threshold : ℕ
  pub open_duration_ms : ℕ

pub record Defaults : Type 0 where
  pub rate_limit : RateLimitConfig
  pub breaker : BreakerDefaults

pub record GatewayConfig : Type 0 where
  pub listen : Text
  pub admin_listen : Text
  pub request_timeout_ms : ℕ
  pub max_body_bytes : ℕ
  pub shutdown_timeout_ms : ℕ
  pub logging : LoggingConfig
  pub upstream_allowlist : UpstreamAllowlist
  pub defaults : Defaults
  pub upstreams : List UpstreamConfig
  pub ssrf : SsrfConfig
