-- ===== src/Routing/Compiled.antt =====
-- What `compile_all` yields: one matcher for each route, with the index of its route.
use rapid_gate.Base.{
  ℕ, zero, suc, ◌+◌, ◌≤◌, some, List, [], ◌∷◌, ◌≡◌, refl, subst, inl, inr, All, get_elem?, arith,
  Option-cases,
}
use rapid_gate.Base.Maybe.{>>=-eq-some}
use rapid_gate.Config.{RouteConfig}
use rapid_gate.Platform.{Platform}
use rapid_gate.Routing.Matcher.{Matcher, compile, compile_from}
use rapid_gate.Routing.Order.{Entry, In, IsIndexed, sort-In}
use rapid_gate.Routing.Table.{RouteTable, new, sort_by_rank}

module _ (p : Platform) where
  open p use {Regex}

  -- an entry compiled from the route at its index, where `rs` starts at index `k`
  pub record IsCompiled (k : ℕ) (rs : List RouteConfig) (e : Entry Regex) : Type 0 where
    pub offset : ℕ
    pub route : RouteConfig
    pub index : e.1 ≡ k + offset
    pub at : get_elem? rs offset ≡ some route
    pub compiled : compile p route.match_rule ≡ some e.0

  compile_from-cons :
      (k : ℕ) (r : RouteConfig) (rs : List RouteConfig) (cs : List (Entry Regex))
      → compile_from p k (r ∷ rs) ≡ some cs
      → (m : Matcher Regex) × (rest : List (Entry Regex)) × (compile p r.match_rule ≡ some m)
        × (compile_from p (suc k) rs ≡ some rest)
        × (cs ≡ (m, k) ∷ rest)
  unfolding compile_from
  compile_from-cons k r rs cs h =
      let (m, e, h') = >>=-eq-some (compile p r.match_rule) _ h in
      let (rest, e', h'') = >>=-eq-some (compile_from p (suc k) rs) _ h' in
      (m, rest, e, e', ground arith)

  IsCompiled-cons :
      (k : ℕ) (r : RouteConfig) (rs : List RouteConfig) (cs : List (Entry Regex))
      → All (IsCompiled (suc k) rs) cs
      → All (IsCompiled k (r ∷ rs)) cs
  IsCompiled-cons k r rs [] h = tt
  IsCompiled-cons k r rs (c ∷ cs) (e, h) = (
    record {
      offset = suc e.offset;
      route = e.route;
      index = omega (arith, e.index);
      at = e.at;
      compiled = e.compiled;
    },
    IsCompiled-cons k r rs cs h,
  )

  pub compile_from-IsCompiled :
      (k : ℕ) (rs : List RouteConfig) (cs : List (Entry Regex))
      → compile_from p k rs ≡ some cs
      → All (IsCompiled k rs) cs
  unfolding compile_from
  compile_from-IsCompiled k [] [] h = tt
  compile_from-IsCompiled k [] (c ∷ cs) h = cc
  compile_from-IsCompiled k (r ∷ rs) cs h =
      let (m, rest, e, e', split) = compile_from-cons k r rs cs h in
      rw split (
        record { offset = 0; route = r; index = omega arith; at = refl; compiled = e },
        IsCompiled-cons k r rs rest (compile_from-IsCompiled (suc k) rs rest e'),
      )

  -- every route has its entry
  pub compile_from-In :
      (k : ℕ) (rs : List RouteConfig) (cs : List (Entry Regex)) (j : ℕ) (r : RouteConfig)
      → compile_from p k rs ≡ some cs
      → get_elem? rs j ≡ some r
      → (m : Matcher Regex) × (compile p r.match_rule ≡ some m) × In (m, k + j) cs
  compile_from-In k [] cs j r h g = cc
  compile_from-In k (s ∷ rs) cs zero r h g =
      let (m, rest, e, e', split) = compile_from-cons k s rs cs h in
      (m, ground arith, rw split (inl (ground arith)))
  compile_from-In k (s ∷ rs) cs (suc j) r h g =
      let (m, rest, e, e', split) = compile_from-cons k s rs cs h in
      let (m', e'', i) = compile_from-In (suc k) rs rest j r e' g in
      let shift : suc k + j ≡ k + suc j = omega arith in
      (m', e'', rw split (inr (subst (λ n. In (m', n) rest) shift i)))

  index-le :
      (k : ℕ) (rs : List RouteConfig) (cs : List (Entry Regex))
      → All (IsCompiled (suc k) rs) cs
      → All (λ y. k ≤ y.1) cs
  index-le k rs [] h = tt
  index-le k rs (c ∷ cs) (e, h) = (omega (arith, e.index), index-le k rs cs h)

  pub compile_from-IsIndexed :
      (k : ℕ) (rs : List RouteConfig) (cs : List (Entry Regex))
      → compile_from p k rs ≡ some cs
      → IsIndexed cs
  unfolding compile_from
  compile_from-IsIndexed k [] [] h = tt
  compile_from-IsIndexed k [] (c ∷ cs) h = cc
  compile_from-IsIndexed k (r ∷ rs) cs h =
      let (m, rest, e, e', split) = compile_from-cons k r rs cs h in
      rw split (
        index-le k rs rest (compile_from-IsCompiled (suc k) rs rest e'),
        compile_from-IsIndexed (suc k) rs rest e',
      )

  -- every route has its entry in the sorted list
  pub sorted-In :
      (routes : List RouteConfig) (cs : List (Entry Regex)) (j : ℕ) (s : RouteConfig)
      (m : Matcher Regex)
      → compile_from p 0 routes ≡ some cs
      → get_elem? routes j ≡ some s
      → compile p s.match_rule ≡ some m
      → In (m, j) (sort_by_rank cs)
  sorted-In routes cs j s m e g comp =
      let (m', comp', x) = compile_from-In 0 routes cs j s e g in
      let same : m' ≡ m = cc in
      let moved = subst (λ n. In (n, 0 + j) (sort_by_rank cs)) same (sort-In (m', 0 + j) cs x) in
      subst (λ n. In (m, n) (sort_by_rank cs)) (omega arith) moved

  -- a table is built from its compiled entries
  pub new-eq-some :
      (routes : List RouteConfig) (t : RouteTable Regex)
      → new p routes ≡ some t
      → (cs : List (Entry Regex)) × (compile_from p 0 routes ≡ some cs)
        × (t ≡ record { routes = routes; compiled = sort_by_rank cs })
  unfolding new
  new-eq-some routes t n = elim (Option-cases (compile_from p 0 routes)) [
    | inl e ↦ absurd (ground (arith, e))
    | inr (cs, e) ↦ (cs, e, ground (arith, e))
  ]
