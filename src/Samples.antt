-- ===== src/Samples.antt =====
-- Data that the tests share: the shapes of the unit tests under src/.
use rapid_gate.Base.{
  ℕ, ◌+◌, ◌-◌, ◌*◌, ◌/◌, leb, min, text_eq, if◌then◌else◌, true, Text, Option, codes, none, some,
  List, [], ◌∷◌,
}
use rapid_gate.Config.{
  MatchRule, RouteConfig, UpstreamConfig, CanaryConfig, GatewayConfig, RateLimitConfig, open_route,
  round_robin,
}
use rapid_gate.Routing.Matcher.{exact}
use rapid_gate.Routing.Table.{RouteTable}
use rapid_gate.Loader.Validate.{LoadedConfig}
use rapid_gate.RateLimit.Store.{Moka}
use rapid_gate.RateLimit.Bucket.{Float, Bucket}
use rapid_gate.RateLimit.Middleware.{Limiter}

abbrev pub chat_rule : MatchRule
chat_rule = record {
  method = codes "POST";
  path = codes "/v1/chat";
  host = none;
  headers = [];
  query = [];
  cookies = [];
}

abbrev pub chat_route : RouteConfig
chat_route = record {
  name = codes "chat";
  match_rule = chat_rule;
  upstream = some (record { id = codes "stable" });
  auth = record { kind = open_route; keys = [] };
  rate_limit = none;
  canary = none;
}

abbrev pub chat_table : RouteTable Text
chat_table = record {
  routes = chat_route ∷ [];
  compiled = (exact (codes "POST") (codes "/v1/chat"), 0) ∷ [];
}

abbrev pub upstream : Text → List Text → UpstreamConfig
upstream id models = record {
  id = id;
  provider = codes "openai";
  base_url = codes "https://api.openai.com/v1";
  api_key = codes "sk-0123456789abcdef";
  load_balancer = round_robin;
  models = models;
  timeout_ms = none;
  pool = none;
  max_retries = none;
}

abbrev pub upstreams : List UpstreamConfig
upstreams =
    upstream (codes "stable") (codes "gpt-4" ∷ codes "gpt-4o" ∷ [])
    ∷ upstream (codes "canary") (codes "gpt-4" ∷ [])
    ∷ []

abbrev pub split_80_20 : CanaryConfig
split_80_20 = record {
  strategy = codes "weight";
  targets =
      record { upstream_id = codes "stable"; weight = 80 }
      ∷ record { upstream_id = codes "canary"; weight = 20 }
      ∷ [];
}

abbrev pub rates : RateLimitConfig
rates = record { algorithm = codes "token_bucket"; rps = 100; burst = 200 }

abbrev pub gateway : GatewayConfig
gateway = record {
  listen = codes "0.0.0.0:8080";
  admin_listen = codes "127.0.0.1:9090";
  request_timeout_ms = 30_000;
  max_body_bytes = 1024;
  shutdown_timeout_ms = 1000;
  logging = record { level = codes "info"; format = codes "json" };
  upstream_allowlist = record { hosts = codes "api.openai.com" ∷ [] };
  defaults = record {
    rate_limit = rates;
    breaker = record { failure_threshold = 5; open_duration_ms = 30_000 };
  };
  upstreams = upstreams;
  ssrf = record { enabled = true; allow_list = [] };
}

abbrev pub loaded : LoadedConfig
loaded = record { gateway = gateway; routes = chat_route ∷ [] }

-- A cache that never evicts.
module _ (V : Type 0) where
  abbrev pub table : Moka V
  table = record {
    Cache = Text → Option V;
    build = λ k. none;
    get = λ k c. c k;
    insert = λ k v c k'. if text_eq k k' then some v else c k';
    invalidate = λ k c k'. if text_eq k k' then none else c k';
  }

-- An arithmetic on whole seconds.
abbrev pub seconds : Float
seconds = record {
  F64 = ℕ;
  from_u32 = λ n. n;
  add = λ a b. a + b;
  sub = λ a b. a - b;
  mul = λ a b. a * b;
  min = λ a b. min a b;
  ge = λ a b. leb b a;
  as_secs = λ n. n / 1_000_000_000;
}

abbrev pub windows : Moka (List ℕ)
windows = table (List ℕ)

abbrev pub buckets : Moka (Bucket seconds)
buckets = table (Bucket seconds)

abbrev pub limiters : Moka (Limiter seconds windows buckets)
limiters = table (Limiter seconds windows buckets)

-- the cache before the first request
abbrev pub fresh : {V : Type 0} → Text → Option V
fresh k = none
