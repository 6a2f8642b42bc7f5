-- ===== src/Handler/Admission.antt =====
-- What `chat_completions` and `embeddings` of src/service/handler.rs do before they forward: the two
-- bodies differ only in the operation that they pass on.
use rapid_gate.Base.{ℕ, Bool, Option, none, some, List, Text}
use rapid_gate.Config.{RateLimitConfig, RouteConfig, UpstreamConfig}
use rapid_gate.Error.{CoreError, Result, ok, err}
use rapid_gate.Platform.{Platform}
use rapid_gate.Canary.Policy.{Draw}
use rapid_gate.Auth.{Verdict, pass, unauthorized, misconfigured, check_route_auth}
use rapid_gate.RateLimit.{Decision, allow, deny}
use rapid_gate.RateLimit.Store.{Moka}
use rapid_gate.RateLimit.Bucket.{Float, Bucket}
use rapid_gate.RateLimit.Middleware.{Limiter, extract_limit_key, check_route_rate_limit}
use rapid_gate.Handler.{AppState, resolve_route}

-- what is read of a request: the method, the path, and two of its headers
pub record Request : Type 0 where
  pub method : Text
  pub path : Text
  pub authorization : Option Text
  pub forwarded_for : Option Text

-- `panicked` where resolving panics; `forwarded` where `forward_streaming` takes over
pub data Outcome : Type 0 where
  panicked : Outcome
  failed : CoreError → Outcome
  refused : Verdict → Outcome
  limited : Outcome
  forwarded : RouteConfig → UpstreamConfig → Outcome

abbrev pub after_limit {ℓ} :
    {C : Type ℓ} → RouteConfig → UpstreamConfig → C × Decision → C × Outcome
after_limit route up (c, allow) = (c, forwarded route up)
after_limit route up (c, deny) = (c, limited)

module _ (p : Platform) (ct_eq : List ℕ → List ℕ → Bool) (f : Float) (windows : Moka (List ℕ))
    (buckets : Moka (Bucket f)) (limiters : Moka (Limiter f windows buckets)) where
  abbrev pub after_auth :
      RateLimitConfig
      → ℕ
      → Request
      → RouteConfig
      → UpstreamConfig
      → limiters.Cache
      → Verdict
      → limiters.Cache × Outcome
  after_auth rates now req route up c pass = after_limit route up (
      check_route_rate_limit f windows buckets limiters rates now route
        (extract_limit_key req.forwarded_for) c)
  after_auth rates now req route up c unauthorized = (c, refused unauthorized)
  after_auth rates now req route up c misconfigured = (c, refused misconfigured)

  abbrev pub after_route :
      RateLimitConfig
      → ℕ
      → Request
      → limiters.Cache
      → Option (Result (RouteConfig × UpstreamConfig))
      → limiters.Cache × Outcome
  after_route rates now req c none = (c, panicked)
  after_route rates now req c (some (err e)) = (c, failed e)
  after_route rates now req c (some (ok (route, up))) =
      after_auth rates now req route up c (check_route_auth ct_eq route.auth req.authorization)

  unfoldable pub admit_request :
      AppState p.Regex
      → RateLimitConfig
      → Draw
      → ℕ
      → Request
      → limiters.Cache
      → limiters.Cache × Outcome
  admit_request state rates draw now req c =
      after_route rates now req c (resolve_route p state draw req.method req.path)
