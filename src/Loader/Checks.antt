-- ===== src/Loader/Checks.antt =====
-- What a configuration that passes `validate` satisfies, and that nothing else is rejected.
use rapid_gate.Base.{
  ℕ, ◌<◌, ◌≤◌, Bool, true, false, not, ◌||◌, ◌==◌, ltb, List, [], ◌∷◌, any, ◌≡◌, refl, ◌↔◌, All,
  arith, Text, codes, text_eq, len, some, eq_ignore_ascii_case, Option-cases, subst, inl, inr,
}
use rapid_gate.Config.{RouteConfig, UpstreamConfig, RateLimitConfig}
use rapid_gate.Base.{Option, map, starts_with, ends_with}
use rapid_gate.PathNorm.{slash}
use rapid_gate.Error.{CoreError, config, Result, ok, err, ◌>>◌, guard}
use rapid_gate.Platform.{Platform, to_uppercase}
use rapid_gate.Url.{host_of}
use rapid_gate.Loader.Validate.{
  LoadedConfig, methods, check_base_url_allowed, is_valid_method, is_valid_path, check_upstreams,
  check_routes, check_keys, validate,
}

-- the host of the URL is in the allowlist, up to ASCII case
abbrev pub IsAllowed : List Text → Text → Type 0
IsAllowed hosts url =
    (host : Text) × (host_of url ≡ some host)
    × (any (λ h. eq_ignore_ascii_case h host) hosts ≡ true)

-- the method, up to case, is one of those of `is_valid_method`, and the path begins with a slash and
-- does not end with one
abbrev pub IsRouteValid : Platform → RouteConfig → Type 0
IsRouteValid p r =
    (any (text_eq (to_uppercase p r.match_rule.method)) methods ≡ true)
    × (starts_with (codes "/") r.match_rule.path ≡ true)
    × (ends_with slash r.match_rule.path ≡ false)

-- no route has the name of one that stands before it, or of one in `seen`
abbrev pub IsFresh : List Text → List RouteConfig → Type 0
IsFresh seen [] = Unit
IsFresh seen (r ∷ rs) = (any (text_eq r.name) seen ≡ false) × IsFresh (r.name ∷ seen) rs

pub record IsValid (p : Platform) (cfg : LoadedConfig) : Type 0 where
  pub hosts :
      All (λ u. IsAllowed cfg.gateway.upstream_allowlist.hosts u.base_url) cfg.gateway.upstreams
  pub names : IsFresh [] cfg.routes
  pub rules : All (IsRouteValid p) cfg.routes
  pub rps : 0 < cfg.gateway.defaults.rate_limit.rps
  pub burst : 0 < cfg.gateway.defaults.rate_limit.burst
  pub keys : All (λ u. 16 ≤ len u.api_key) cfg.gateway.upstreams

-- Two checks in a row hold both of their conditions.
>>_iff :
    {A B : Type 0} (m k : Result (Unit {0}))
    → (m ≡ ok tt) ↔ A
    → (k ≡ ok tt) ↔ B
    → ((m >> k) ≡ ok tt) ↔ (A × B)
>>_iff (ok tt) k f g = ((λ h. (f.0 refl, g.0 h)), (λ h. g.1 h.1))
>>_iff (err e) k f g = ((λ h. cc), (λ h. f.1 h.0))

guard_iff : (b : Bool) (e : CoreError) → (guard b e ≡ ok tt) ↔ (b ≡ true)
guard_iff true e = ((λ h. refl), (λ h. refl))
guard_iff false e = ((λ h. cc), (λ h. cc))

not_iff : (b : Bool) → (not b ≡ true) ↔ (b ≡ false)
not_iff true = ((λ h. cc), (λ h. cc))
not_iff false = ((λ h. refl), (λ h. refl))

rates_iff : (a b : ℕ) → (not (a == 0 || b == 0) ≡ true) ↔ ((0 < a) × (0 < b))
rates_iff a b = (ground arith, ground arith)

pub check_base_url_allowed_iff :
    (url : Text) (hosts : List Text)
    → (check_base_url_allowed url hosts ≡ ok tt) ↔ IsAllowed hosts url
unfolding check_base_url_allowed
check_base_url_allowed_iff url hosts = elim (Option-cases (host_of url)) [
  | inl e ↦ ((λ h. absurd (ground (arith, e))), (λ h. absurd (ground (arith, e, h.1))))
  | inr (host, e) ↦
      let g = guard_iff (any (λ h. eq_ignore_ascii_case h host) hosts) (config host) in
      rw (e, check_base_url_allowed)
        (
          (λ h. (host, refl, g.0 h)),
          (λ h.
              let same : h.0 ≡ host = ground (arith, h.1) in
              g.1 (subst (λ t. any (λ x. eq_ignore_ascii_case x t) hosts ≡ true) same h.2)),
        )
]

check_upstreams_iff :
    (hosts : List Text) (ups : List UpstreamConfig)
    → (check_upstreams hosts ups ≡ ok tt) ↔ All (λ u. IsAllowed hosts u.base_url) ups
unfolding check_upstreams
check_upstreams_iff hosts [] = ((λ h. tt), (λ h. refl))
check_upstreams_iff hosts (u ∷ us) =
    >>_iff (check_base_url_allowed u.base_url hosts) (check_upstreams hosts us)
      (check_base_url_allowed_iff u.base_url hosts) (check_upstreams_iff hosts us)

check_keys_iff :
    (ups : List UpstreamConfig) → (check_keys ups ≡ ok tt) ↔ All (λ u. 16 ≤ len u.api_key) ups
unfolding check_keys
check_keys_iff [] = ((λ h. tt), (λ h. refl))
check_keys_iff (u ∷ us) =
    >>_iff (guard (not (ltb (len u.api_key) 16)) (config u.id)) (check_keys us)
      (ground arith, ground arith) (check_keys_iff us)

is_valid_path_iff :
    (path : Text)
    → (is_valid_path path ≡ true)
      ↔ ((starts_with (codes "/") path ≡ true) × (ends_with slash path ≡ false))
unfolding is_valid_path
is_valid_path_iff path = (ground arith, ground arith)

path_iff :
    (r : RouteConfig)
    → (guard (is_valid_path r.match_rule.path) (config r.name) ≡ ok tt) ↔ (
        (starts_with (codes "/") r.match_rule.path ≡ true)
        × (ends_with slash r.match_rule.path ≡ false))
path_iff r =
    let tested = guard_iff (is_valid_path r.match_rule.path) (config r.name) in
    let written = is_valid_path_iff r.match_rule.path in
    ((λ h. written.0 (tested.0 h)), (λ h. tested.1 (written.1 h)))

method_iff :
    (p : Platform) (r : RouteConfig)
    → (guard (is_valid_method p r.match_rule.method) (config r.name) ≡ ok tt)
      ↔ (any (text_eq (to_uppercase p r.match_rule.method)) methods ≡ true)
unfolding is_valid_method
method_iff p r = guard_iff _ (config r.name)

check_routes_iff :
    (p : Platform) (seen : List Text) (rs : List RouteConfig)
    → (check_routes p seen rs ≡ ok tt) ↔ (IsFresh seen rs × All (IsRouteValid p) rs)
unfolding check_routes
check_routes_iff p seen [] = ((λ h. (tt, tt)), (λ h. refl))
check_routes_iff p seen (r ∷ rs) =
    let fresh = any (text_eq r.name) seen in
    let method = is_valid_method p r.match_rule.method in
    let path = is_valid_path r.match_rule.path in
    let step =
      >>_iff (guard (not fresh) (config r.name)) _ (guard_iff (not fresh) (config r.name)) (
        >>_iff (guard method (config r.name)) _ (method_iff p r) (
          >>_iff (guard path (config r.name)) _ (path_iff r)
            (check_routes_iff p (r.name ∷ seen) rs))) in
    (
      (λ h.
          let c = step.0 h in
          (((not_iff fresh).0 c.0, c.1.1.1.0), ((c.1.0, c.1.1.0.0, c.1.1.0.1), c.1.1.1.1))),
      (λ h. step.1 ((not_iff fresh).1 h.0.0, (h.1.0.0, ((h.1.0.1, h.1.0.2), (h.0.1, h.1.1))))),
    )

pub validate-IsValid :
    (p : Platform) (cfg : LoadedConfig) → (validate p cfg ≡ ok tt) ↔ IsValid p cfg
unfolding validate
validate-IsValid p cfg =
    let gw = cfg.gateway in
    let rl = gw.defaults.rate_limit in
    let rates : Bool = not (rl.rps == 0 || rl.burst == 0) in
    let both =
      >>_iff (check_upstreams gw.upstream_allowlist.hosts gw.upstreams) _
        (check_upstreams_iff gw.upstream_allowlist.hosts gw.upstreams)
        (>>_iff (check_routes p [] cfg.routes) _ (check_routes_iff p [] cfg.routes) (
          >>_iff (guard rates (config (codes "default rate_limit"))) _
            (guard_iff rates (config (codes "default rate_limit")))
            (check_keys_iff gw.upstreams))) in
    (
      (λ h.
          let c = both.0 h in
          record {
            hosts = c.0;
            names = c.1.0.0;
            rules = c.1.0.1;
            rps = ((rates_iff rl.rps rl.burst).0 c.1.1.0).0;
            burst = ((rates_iff rl.rps rl.burst).0 c.1.1.0).1;
            keys = c.1.1.1;
          }),
      (λ v. both.1 (
        v.hosts,
        ((v.names, v.rules), ((rates_iff rl.rps rl.burst).1 (v.rps, v.burst), v.keys)),
      )),
    )

-- the routes with other rate limits
abbrev pub with_limits : (RouteConfig → Option RateLimitConfig) → LoadedConfig → LoadedConfig
with_limits limit cfg = record cfg {
  routes = map (λ (r : RouteConfig). record r { rate_limit = limit r }) cfg.routes;
}
