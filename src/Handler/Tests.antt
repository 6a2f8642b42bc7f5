-- ===== src/Handler/Tests.antt =====
-- Concrete runs of the resolving of requests and of the list of models.
use rapid_gate.Base.{
  false, ℕ, List, ◌++◌, Text, none, ◌↔◌, ◌-◌, ◌<◌, some, [], ◌∷◌, codes, text_eq, ascii_upper, ◌≡◌,
  refl, inl, inr, arith,
}
use rapid_gate.Config.{RouteConfig, UpstreamConfig, CanaryTarget}
use rapid_gate.Error.{ok}
use rapid_gate.Platform.{ascii_platform}
use rapid_gate.Routing.Order.{In}
use rapid_gate.Routing.Matcher.{compile}
use rapid_gate.Routing.Table.{new, match_request}
use rapid_gate.Canary.Policy.{Draw}
use rapid_gate.Handler.{
  resolve_upstream, target_id, find_upstream, resolve_route, list_models, readyz, ready,
}
use rapid_gate.Handler.Upstream.{IsConfigured, IsServed, resolve_upstream-canary}
use rapid_gate.Handler.Resolved.{with_table, resolve_route-unconditional}
use rapid_gate.Auth.{pass}
use rapid_gate.RateLimit.{allow}
use rapid_gate.Handler.Sse.{parse_sse_data}
use rapid_gate.Handler.Admission.{Request, forwarded, admit_request}
use rapid_gate.Handler.Forwarded.{verdict_of, decision_of, admit_request_iff}
use rapid_gate.Base.{Option}
use rapid_gate.Json.{Value, json_object}
use rapid_gate.Ssrf.Pool.{UpstreamPool, client_for}
use rapid_gate.Samples.{table}
use rapid_gate.Handler.Stream.{bytes, broken, Event, scan_events}
use rapid_gate.Handler.Drain.{scan_events-total}
use rapid_gate.Handler.Forward.{Sent, unreachable, forward_streaming}
use rapid_gate.Handler.Sent.{Grounds, forward_streaming-sent}
use rapid_gate.Samples.{
  seconds, windows, buckets, limiters, fresh, rates, chat_route, chat_table, upstream, upstreams,
  split_80_20,
}
use rapid_gate.Providers.Factory.{transform_request, build_url}
use rapid_gate.Providers.Compatible
use rapid_gate.Ssrf.{check_ssrf}
use rapid_gate.Proxy.Transformer.{transform_command, apply_body, apply_rules}

-- the last number of a range
abbrev last : Draw
last n = n - 1

last_lt : (k : ℕ) → 0 < k → last k < k
last_lt k h = omega arith

abbrev canary_route : RouteConfig
canary_route = record chat_route { canary = some split_80_20 }

stable-IsConfigured : IsConfigured upstreams (codes "stable")
stable-IsConfigured =
    (upstream (codes "stable") (codes "gpt-4" ∷ codes "gpt-4o" ∷ []), inl refl, refl)

canary-IsConfigured : IsConfigured upstreams (codes "canary")
canary-IsConfigured = (upstream (codes "canary") (codes "gpt-4" ∷ []), inr (inl refl), refl)

served : IsServed upstreams split_80_20
served = record {
  positive = omega arith;
  bounded = omega arith;
  configured = (stable-IsConfigured, (canary-IsConfigured, tt));
}

resolve_upstream-canary_example :
    (u : UpstreamConfig) × (resolve_upstream upstreams last canary_route ≡ ok u)
    × In u upstreams
    × ((t : CanaryTarget) × In t split_80_20.targets × (0 < t.weight) × (t.upstream_id ≡ u.id))
resolve_upstream-canary_example =
    resolve_upstream-canary upstreams last canary_route split_80_20 last_lt refl served

built : new ascii_platform (chat_route ∷ []) ≡ some chat_table
unfolding new compile ascii_upper
built = refl

abbrev stable : UpstreamConfig
stable = upstream (codes "stable") (codes "gpt-4" ∷ codes "gpt-4o" ∷ [])

resolved :
    resolve_route ascii_platform
      (with_table ascii_platform chat_table upstreams)
      last
      (codes "POST")
      (codes "/v1/chat")
    ≡ some (ok (chat_route, stable))
unfolding resolve_route match_request ascii_upper resolve_upstream target_id find_upstream
resolved = refl

resolve_route-unconditional_example :
    (chat_route.match_rule.headers ≡ []) × (chat_route.match_rule.query ≡ [])
resolve_route-unconditional_example =
    resolve_route-unconditional ascii_platform (chat_route ∷ []) chat_table upstreams last
      (codes "POST") (codes "/v1/chat") chat_route stable built resolved

models : list_models upstreams ≡ codes "gpt-4" ∷ codes "gpt-4o" ∷ []
unfolding list_models
models = refl

ready_now : readyz (with_table ascii_platform chat_table upstreams) ≡ ready 1 2
unfolding readyz
ready_now = refl

abbrev no_token : Request
no_token = record {
  method = codes "POST";
  path = codes "/v1/chat";
  authorization = none;
  forwarded_for = none;
}

admit_request_iff_example :
    ((admit_request ascii_platform text_eq seconds windows buckets limiters
        (with_table ascii_platform chat_table upstreams)
        rates
        last
        7
        no_token
        fresh).1
      ≡ forwarded chat_route stable)
    ↔ ((resolve_route ascii_platform
            (with_table ascii_platform chat_table upstreams)
            last
            (codes "POST")
            (codes "/v1/chat")
          ≡ some (ok (chat_route, stable)))
        × (verdict_of ascii_platform text_eq seconds windows buckets limiters chat_route no_token
            ≡ pass)
        × (decision_of ascii_platform text_eq seconds windows buckets limiters rates 7 chat_route
              no_token fresh
            ≡ allow))
admit_request_iff_example =
    admit_request_iff ascii_platform text_eq seconds windows buckets limiters rates 7 no_token fresh
      (with_table ascii_platform chat_table upstreams) last chat_route stable

data_joined :
    parse_sse_data (codes "id: 1" ++ (10 ∷ codes "data: x" ++ (10 ∷ codes "data:y")))
    ≡ some (codes "x" ++ (10 ∷ codes "y"))
unfolding parse_sse_data
data_joined = refl

-- the chunks of a stream: two events, then the mark of its end
abbrev groups : List (Text × List Text)
groups = (codes "one", codes "two" ∷ []) ∷ (codes "[DONE]", []) ∷ []

scan_events-total_example :
    (es : List Event) × (scan_events (λ s. s) ([], []) (bytes (codes "data: a") ∷ broken ∷ [])
      ≡ some es)
scan_events-total_example =
    scan_events-total (λ s. s) (bytes (codes "data: a") ∷ broken ∷ []) ([], [])

-- A body of one byte, which stands for a request without a model.
abbrev parse : List ℕ → Option Value
parse [] = none
parse (n ∷ ns) = some (json_object [])

abbrev pool : UpstreamPool (Text → Option ℕ)
pool = record {
  cache = λ k. none;
  ssrf = record { enabled = false; allow_list = [] };
  default_request_timeout = 1000;
  max_body_bytes = 1024;
}

abbrev expected : Sent
expected = record {
  url = codes "https://api.openai.com/v1/v1/chat/completions";
  authorization = codes "Bearer sk-0123456789abcdef";
  body = json_object [];
}

forwarded_once :
    (forward_streaming
      (λ s. s)
      (λ s. none)
      (λ v. [])
      parse
      (λ v. [])
      (table ℕ)
      (λ s. some 1)
      (λ s. none)
      (λ c s. unreachable)
      pool
      stable
      (codes "chat/completions")
      (some (1 ∷ []))).1
    ≡ some expected
unfolding forward_streaming transform_request Compatible.transform_request client_for check_ssrf
    build_url transform_command apply_body apply_rules
forwarded_once = refl

forward_streaming-sent_example :
    Grounds
      (λ s. s)
      (λ s. none)
      (λ v. [])
      parse
      (λ v. [])
      (table ℕ)
      (λ s. some 1)
      (λ s. none)
      (λ c s. unreachable)
      pool
      stable
      (codes "chat/completions")
      (some (1 ∷ []))
      expected
forward_streaming-sent_example =
    forward_streaming-sent (λ s. s) (λ s. none) (λ v. []) parse (λ v. []) (table ℕ) (λ s. some 1)
      (λ s. none) (λ c s. unreachable) pool stable (codes "chat/completions") (some (1 ∷ []))
      expected forwarded_once
