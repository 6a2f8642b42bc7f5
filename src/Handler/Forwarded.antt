-- ===== src/Handler/Forwarded.antt =====
-- A request is forwarded only after it is resolved, authorized and within its limit, and one that
-- is refused for its credentials uses up no quota.
use rapid_gate.Base.{ℕ, Bool, Option, none, some, List, ◌≡◌, refl, sym, ap, ◌∙◌, ◌↔◌}
use rapid_gate.Config.{RateLimitConfig, RouteConfig, UpstreamConfig}
use rapid_gate.Error.{Result, ok, err}
use rapid_gate.Platform.{Platform}
use rapid_gate.Canary.Policy.{Draw}
use rapid_gate.Auth.{Verdict, pass, unauthorized, misconfigured, check_route_auth}
use rapid_gate.RateLimit.{Decision, allow, deny}
use rapid_gate.RateLimit.Store.{Moka}
use rapid_gate.RateLimit.Bucket.{Float, Bucket}
use rapid_gate.RateLimit.Middleware.{Limiter, extract_limit_key, check_route_rate_limit}
use rapid_gate.Handler.{AppState, resolve_route}
use rapid_gate.Handler.Admission.{
  Request, refused, forwarded, after_limit, after_auth, after_route, admit_request,
}

after_limit_iff :
    {C : Type 0} (r r' : RouteConfig) (u u' : UpstreamConfig) (c : C) (d : Decision)
    → ((after_limit r u (c, d)).1 ≡ forwarded r' u') ↔ ((r ≡ r') × (u ≡ u') × (d ≡ allow))
after_limit_iff r r' u u' c allow = ((λ h. (cc, cc, refl)), (λ (e, f, _). cc))
after_limit_iff r r' u u' c deny = ((λ h. cc), (λ (_, _, d). cc))

module _ (p : Platform) (ct_eq : List ℕ → List ℕ → Bool) (f : Float) (windows : Moka (List ℕ))
    (buckets : Moka (Bucket f)) (limiters : Moka (Limiter f windows buckets)) where
  -- the verdict and the decision that a request of the route gets
  abbrev pub verdict_of : RouteConfig → Request → Verdict
  verdict_of route req = check_route_auth ct_eq route.auth req.authorization

  abbrev pub decision_of : RateLimitConfig → ℕ → RouteConfig → Request → limiters.Cache → Decision
  decision_of rates now route req c =
      (check_route_rate_limit f windows buckets limiters rates now route
        (extract_limit_key req.forwarded_for) c).1

  module _ (rates : RateLimitConfig) (now : ℕ) (req : Request) (c : limiters.Cache) where
    after_auth_iff :
        (r r' : RouteConfig) (u u' : UpstreamConfig) (v : Verdict)
        → ((after_auth p ct_eq f windows buckets limiters rates now req r u c v).1
            ≡ forwarded r' u')
          ↔ ((r ≡ r') × (u ≡ u') × (v ≡ pass) × (decision_of rates now r req c ≡ allow))
    after_auth_iff r r' u u' pass =
        let checked =
          check_route_rate_limit f windows buckets limiters rates now r
            (extract_limit_key req.forwarded_for) c in
        let inner = after_limit_iff r r' u u' checked.0 checked.1 in
        ((λ h. let (a, b, d) = inner.0 h in (a, b, refl, d)), (λ (a, b, _, d). inner.1 (a, b, d)))
    after_auth_iff r r' u u' unauthorized = ((λ h. cc), (λ (_, _, v, _). cc))
    after_auth_iff r r' u u' misconfigured = ((λ h. cc), (λ (_, _, v, _). cc))

    after_route_iff :
        (o : Option (Result (RouteConfig × UpstreamConfig))) (r : RouteConfig) (u : UpstreamConfig)
        → ((after_route p ct_eq f windows buckets limiters rates now req c o).1 ≡ forwarded r u) ↔ (
            (o ≡ some (ok (r, u)))
            × (verdict_of r req ≡ pass)
            × (decision_of rates now r req c ≡ allow))
    after_route_iff none r u = ((λ h. cc), (λ (o, _, _). cc))
    after_route_iff (some (err e)) r u = ((λ h. cc), (λ (o, _, _). cc))
    after_route_iff (some (ok (s, v))) r u =
        let inner = after_auth_iff s r v u (verdict_of s req) in
        (
          (λ h.
              let (a, b, d, e) = inner.0 h in
              (
                cc,
                ap (λ x. verdict_of x req) (sym a) ∙ d,
                ap (λ x. decision_of rates now x req c) (sym a) ∙ e,
              )),
          (λ (o, d, e).
              let a : s ≡ r = cc in
              let b : v ≡ u = cc in
              inner.1 (
                a,
                b,
                ap (λ x. verdict_of x req) a ∙ d,
                ap (λ x. decision_of rates now x req c) a ∙ e,
              )),
        )

    -- A request is forwarded to an upstream exactly when it resolves to a route and that upstream,
    -- its credentials pass for that route, and the limiter of that route allows it.
    pub admit_request_iff :
        (state : AppState p.Regex) (draw : Draw) (r : RouteConfig) (u : UpstreamConfig)
        → ((admit_request p ct_eq f windows buckets limiters state rates draw now req c).1
            ≡ forwarded r u)
          ↔ ((resolve_route p state draw req.method req.path ≡ some (ok (r, u)))
              × (verdict_of r req ≡ pass)
              × (decision_of rates now r req c ≡ allow))
    unfolding admit_request
    admit_request_iff state draw r u =
        after_route_iff (resolve_route p state draw req.method req.path) r u

    auth-refused :
        (r : RouteConfig) (u : UpstreamConfig) (v w : Verdict)
        → (after_auth p ct_eq f windows buckets limiters rates now req r u c v).1 ≡ refused w
        → (after_auth p ct_eq f windows buckets limiters rates now req r u c v).0 ≡ c
    auth-refused r u pass w h =
        limit-refused
          (check_route_rate_limit f windows buckets limiters rates now r
            (extract_limit_key req.forwarded_for) c)
          h
      where
        limit-refused :
            (x : limiters.Cache × Decision)
            → (after_limit r u x).1 ≡ refused w
            → (after_limit r u x).0 ≡ c
        limit-refused (c', allow) h = cc
        limit-refused (c', deny) h = cc
    auth-refused r u unauthorized w h = refl
    auth-refused r u misconfigured w h = refl

    route-refused :
        (o : Option (Result (RouteConfig × UpstreamConfig))) (w : Verdict)
        → (after_route p ct_eq f windows buckets limiters rates now req c o).1 ≡ refused w
        → (after_route p ct_eq f windows buckets limiters rates now req c o).0 ≡ c
    route-refused none w h = refl
    route-refused (some (err e)) w h = refl
    route-refused (some (ok (s, v))) w h = auth-refused s v (verdict_of s req) w h

    -- A request that is refused for its credentials leaves every limiter as it was.
    pub admit_request-refused :
        (state : AppState p.Regex) (draw : Draw) (w : Verdict)
        → (admit_request p ct_eq f windows buckets limiters state rates draw now req c).1
          ≡ refused w
        → (admit_request p ct_eq f windows buckets limiters state rates draw now req c).0 ≡ c
    unfolding admit_request
    admit_request-refused state draw w h =
        route-refused (resolve_route p state draw req.method req.path) w h
