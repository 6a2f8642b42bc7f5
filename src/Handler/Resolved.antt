-- ===== src/Handler/Resolved.antt =====
-- What `resolve_route` answers, with the empty headers and the empty query that it passes on.
use rapid_gate.Base.{
  ℕ, true, Option, none, some, List, [], ◌∷◌, Text, ◌≡◌, ◌≢◌, refl, sym, ◌∙◌, subst, ◌⊎◌, inl, inr,
  arith,
}
use rapid_gate.Config.{HeaderMatch, QueryMatch, MatchRule, RouteConfig, UpstreamConfig}
use rapid_gate.Error.{CoreError, route_not_found, Result, ok, err, ◌>>=◌}
use rapid_gate.Platform.{Platform}
use rapid_gate.Routing.Matcher.{
  Matcher, Lookup, panic, missing, found, header_matches, query_matches, full_match,
}
use rapid_gate.Routing.Table.{RouteTable, new, match_request}
use rapid_gate.Routing.First.{match_request-IsFirst}
use rapid_gate.Routing.Missing.{match_request-ne-panic}
use rapid_gate.Canary.Policy.{Draw}
use rapid_gate.Handler.{AppState, resolve_upstream, resolve_route}

abbrev pub with_table : (p : Platform) → RouteTable p.Regex → List UpstreamConfig → AppState p.Regex
with_table p t configs = record { route_table = record { table = t }; upstream_configs = configs }

module _ (p : Platform) where
  open p use {Regex}

  header_matches-none : (want : List HeaderMatch) → header_matches p want [] ≡ true → want ≡ []
  unfolding header_matches
  header_matches-none [] h = refl
  header_matches-none (w ∷ ws) h = cc

  query_matches-none : (want : List QueryMatch) → query_matches want [] ≡ true → want ≡ []
  unfolding query_matches
  query_matches-none [] h = refl
  query_matches-none (w ∷ ws) h = cc

  full_match-none :
      (m : Matcher Regex) (rule : MatchRule) (method path : Text)
      → full_match p m rule method path [] [] ≡ true
      → (header_matches p rule.headers [] ≡ true) × (query_matches rule.query [] ≡ true)
  unfolding full_match
  full_match-none m rule method path h = ground arith

  resolve_route-found :
      (state : AppState Regex) (draw : Draw) (method path : Text) (k : ℕ) (s : RouteConfig)
      → match_request p state.route_table.table method path [] [] ≡ found k s
      → resolve_route p state draw method path
        ≡ some (resolve_upstream state.upstream_configs draw s >>= λ u. ok (s, u))
  unfolding resolve_route
  resolve_route-found state draw method path k s e = rw (e, resolve_route) refl

  resolve_route-missing :
      (state : AppState Regex) (draw : Draw) (method path : Text)
      → match_request p state.route_table.table method path [] [] ≡ missing
      → resolve_route p state draw method path ≡ some (err (route_not_found path))
  unfolding resolve_route
  resolve_route-missing state draw method path e = rw (e, resolve_route) refl

  Lookup-cases :
      (l : Lookup) → l ≢ panic → (l ≡ missing) ⊎ ((k : ℕ) × (s : RouteConfig) × (l ≡ found k s))
  Lookup-cases panic h = absurd (h refl)
  Lookup-cases missing h = inl refl
  Lookup-cases (found k s) h = inr (k, s, refl)

  err≢ok : (e : CoreError) (x : RouteConfig × UpstreamConfig) → some (err e) ≡ some (ok x) → ⊥
  err≢ok e x h = cc

  bind-pair :
      (m : Result UpstreamConfig) (s r : RouteConfig) (u : UpstreamConfig)
      → ◌≡◌ {A = Option (Result (RouteConfig × UpstreamConfig))}
          (some (m >>= λ v. ok (s, v)))
          (some (ok (r, u)))
      → (s ≡ r) × (m ≡ ok u)
  bind-pair (ok v) s r u h = (cc, cc)
  bind-pair (err e) s r u h = absurd (err≢ok e (r, u) h)

  some≢none :
      {x : Result (RouteConfig × UpstreamConfig)}
      → ◌≡◌ {A = Option (Result (RouteConfig × UpstreamConfig))} (some x) none
      → ⊥
  some≢none h = cc

  -- Resolving a request with a table whose routes compile never panics.
  pub resolve_route-ne-none :
      (routes : List RouteConfig) (t : RouteTable Regex) (configs : List UpstreamConfig)
      (draw : Draw) (method path : Text)
      → new p routes ≡ some t
      → resolve_route p (with_table p t configs) draw method path ≢ none
  resolve_route-ne-none routes t configs draw method path n z =
      let state = with_table p t configs in
      let safe = match_request-ne-panic p method path [] [] routes t n in
      elim (Lookup-cases (match_request p t method path [] []) safe) [
        | inl e ↦ some≢none (sym (resolve_route-missing state draw method path e) ∙ z)
        | inr (k, s, e) ↦ some≢none (sym (resolve_route-found state draw method path k s e) ∙ z)
      ]

  -- A request only ever resolves to a route without a condition on headers and without one on the
  -- query: no request reaches a route that has such a condition.
  pub resolve_route-unconditional :
      (routes : List RouteConfig) (t : RouteTable Regex) (configs : List UpstreamConfig)
      (draw : Draw) (method path : Text) (r : RouteConfig) (u : UpstreamConfig)
      → new p routes ≡ some t
      → resolve_route p (with_table p t configs) draw method path ≡ some (ok (r, u))
      → (r.match_rule.headers ≡ []) × (r.match_rule.query ≡ [])
  resolve_route-unconditional routes t configs draw method path r u n h =
      let state = with_table p t configs in
      let safe = match_request-ne-panic p method path [] [] routes t n in
      elim (Lookup-cases (match_request p t method path [] []) safe) [
        | inl e ↦ absurd (
            err≢ok (route_not_found path) (r, u)
              (sym (resolve_route-missing state draw method path e) ∙ h))
        | inr (k, s, e) ↦
            let res = resolve_route-found state draw method path k s e in
            let first = match_request-IsFirst p method path [] [] routes t k s n e in
            let (hs, qs) = full_match-none first.matcher s.match_rule method path first.accepts in
            let (same, _) = bind-pair (resolve_upstream configs draw s) s r u (sym res ∙ h) in
            (
              subst (λ x. x.match_rule.headers ≡ []) same
                  (header_matches-none s.match_rule.headers hs),
              subst (λ x. x.match_rule.query ≡ []) same (query_matches-none s.match_rule.query qs),
            )
      ]
