-- ===== src/Routing/First.antt =====
-- Which route answers a request: `match_request` of a table that `new` built.
use rapid_gate.Base.{
  ℕ, true, false, some, List, [], ◌∷◌, ◌≡◌, refl, sym, ◌∙◌, if◌then◌else◌, subst, inl, inr, All,
  get_elem?, arith, Bool-cases, Text,
}
use rapid_gate.Config.{RouteConfig}
use rapid_gate.Platform.{Platform}
use rapid_gate.Routing.Matcher.{Matcher, rank, Pairs, found, compile, full_match, first_match}
use rapid_gate.Routing.Table.{RouteTable, new, match_request, sort_by_rank}
use rapid_gate.Routing.Order.{Entry, In, Precedes, Before, IsOrdered, All-sort, sort-IsOrdered}
use rapid_gate.Routing.Compiled.{
  IsCompiled, compile_from-IsCompiled, compile_from-IsIndexed, sorted-In, new-eq-some,
}

module _ (p : Platform) (method path : Text) (headers query : Pairs) where
  open p use {Regex}

  -- the route `r`, compiled to `m`, accepts the request
  abbrev pub Accepts : Matcher Regex → RouteConfig → Type 0
  Accepts m r = full_match p m r.match_rule method path headers query ≡ true

  -- Route `i` answers: it is `r`, it accepts the request, and no accepting route comes before it
  -- in the order exact, prefix, regex, and then by registration.
  pub record IsFirst (routes : List RouteConfig) (i : ℕ) (r : RouteConfig) : Type 0 where
    pub at : get_elem? routes i ≡ some r
    pub matcher : Matcher Regex
    pub compiled : compile p r.match_rule ≡ some matcher
    pub accepts : Accepts matcher r
    pub first :
        (j : ℕ) (s : RouteConfig) (m : Matcher Regex)
        → get_elem? routes j ≡ some s
        → compile p s.match_rule ≡ some m
        → Accepts m s
        → Precedes (rank matcher) i (rank m) j

  -- the entry of an accepting route does not come before `(m, i)`
  abbrev Later : List RouteConfig → Matcher Regex → ℕ → Entry Regex → Type 0
  Later routes m i e =
      (s : RouteConfig)
      → get_elem? routes e.1 ≡ some s
      → Accepts e.0 s
      → Precedes (rank m) i (rank e.0) e.1

  Later-All :
      (routes : List RouteConfig) (m : Matcher Regex) (i : ℕ) (es : List (Entry Regex))
      → All (Before (m, i)) es
      → All (Later routes m i) es
  Later-All routes m i [] h = tt
  Later-All routes m i (e ∷ es) (b, h) = ((λ s g a. b), Later-All routes m i es h)

  pub at_index :
      (routes : List RouteConfig) (m : Matcher Regex) (k : ℕ) (c : IsCompiled p 0 routes (m, k))
      → get_elem? routes k ≡ some c.route
  at_index routes m k c =
      subst (λ n. get_elem? routes n ≡ some c.route) (omega (arith, c.index)) c.at

  pub first_match-cons :
      (routes : List RouteConfig) (m : Matcher Regex) (k : ℕ) (es : List (Entry Regex))
      (s : RouteConfig)
      → get_elem? routes k ≡ some s
      → first_match p routes ((m, k) ∷ es) method path headers query ≡ (
          if full_match p m s.match_rule method path headers query
          then found k s
          else first_match p routes es method path headers query)
  unfolding first_match
  first_match-cons routes m k es s e = rw (e, first_match)

  -- the same in the two cases of the test
  pub first_match-hit :
      (routes : List RouteConfig) (m : Matcher Regex) (k : ℕ) (es : List (Entry Regex))
      (s : RouteConfig)
      → get_elem? routes k ≡ some s
      → Accepts m s
      → first_match p routes ((m, k) ∷ es) method path headers query ≡ found k s
  first_match-hit routes m k es s e y = rw (first_match-cons routes m k es s e, y)

  pub first_match-miss :
      (routes : List RouteConfig) (m : Matcher Regex) (k : ℕ) (es : List (Entry Regex))
      (s : RouteConfig)
      → get_elem? routes k ≡ some s
      → full_match p m s.match_rule method path headers query ≡ false
      → first_match p routes ((m, k) ∷ es) method path headers query
        ≡ first_match p routes es method path headers query
  first_match-miss routes m k es s e n = rw (first_match-cons routes m k es s e, n)

  not_both :
      (routes : List RouteConfig) (m : Matcher Regex) (k : ℕ) (s t : RouteConfig)
      → get_elem? routes k ≡ some s
      → get_elem? routes k ≡ some t
      → full_match p m s.match_rule method path headers query ≡ false
      → Accepts m t
      → ⊥
  not_both routes m k s t e e' n y = cc

  first_match-found :
      (routes : List RouteConfig) (es : List (Entry Regex)) (i : ℕ) (r : RouteConfig)
      → All (IsCompiled p 0 routes) es
      → IsOrdered es
      → first_match p routes es method path headers query ≡ found i r
      → (m : Matcher Regex) × (get_elem? routes i ≡ some r)
        × (compile p r.match_rule ≡ some m)
        × Accepts m r
        × All (Later routes m i) es
  first_match-found routes [] i r c o h = unfold first_match in cc
  first_match-found routes ((m, k) ∷ es) i r (c, cs) (b, o) h =
      let e = at_index routes m k c in
      elim (Bool-cases (full_match p m c.route.match_rule method path headers query)) [
        | inl y ↦
            let same : found k c.route ≡ found i r =
              sym (first_match-hit routes m k es c.route e y) ∙ h in
            let same_i : k ≡ i = cc in
            let same_r : c.route ≡ r = cc in
            (
              m,
              ground arith,
              subst (λ s. compile p s.match_rule ≡ some m) same_r c.compiled,
              subst (λ s. Accepts m s) same_r y,
              subst (λ n. All (Later routes m n) ((m, k) ∷ es)) same_i
                  ((λ s g a. inr (refl, omega arith)), Later-All routes m k es b),
            )
        | inr n ↦
            let h' = sym (first_match-miss routes m k es c.route e n) ∙ h in
            let (m', g, comp, acc, later) = first_match-found routes es i r cs o h' in
            (m', g, comp, acc, ((λ s g' a. absurd (not_both routes m k c.route s e g' n a)), later))
      ]

  Later-at :
      (routes : List RouteConfig) (m m' : Matcher Regex) (i j : ℕ) (es : List (Entry Regex))
      → All (Later routes m i) es
      → In (m', j) es
      → Later routes m i (m', j)
  Later-at routes m m' i j [] h x = elim x [ ]
  Later-at routes m m' i j (e ∷ es) (l, ls) (inl same) = subst (Later routes m i) (sym same) l
  Later-at routes m m' i j (e ∷ es) (l, ls) (inr x) = Later-at routes m m' i j es ls x

  pub match_request-sorted :
      (routes : List RouteConfig) (t : RouteTable Regex) (cs : List (Entry Regex))
      → t ≡ record { routes = routes; compiled = sort_by_rank cs }
      → match_request p t method path headers query
        ≡ first_match p routes (sort_by_rank cs) method path headers query
  unfolding match_request
  match_request-sorted routes t cs e = rw e

  pub match_request-IsFirst :
      (routes : List RouteConfig) (t : RouteTable Regex) (i : ℕ) (r : RouteConfig)
      → new p routes ≡ some t
      → match_request p t method path headers query ≡ found i r
      → IsFirst routes i r
  match_request-IsFirst routes t i r n f =
      let (cs, e, built) = new-eq-some p routes t n in
      let all = All-sort (IsCompiled p 0 routes) cs (compile_from-IsCompiled p 0 routes cs e) in
      let ordered = sort-IsOrdered cs (compile_from-IsIndexed p 0 routes cs e) in
      let f' = sym (match_request-sorted routes t cs built) ∙ f in
      let (m, g, comp, acc, later) =
        first_match-found routes (sort_by_rank cs) i r all ordered f' in
      record {
        at = g;
        matcher = m;
        compiled = comp;
        accepts = acc;
        first = λ j s m' g' comp' acc'.
            Later-at routes m m' i j (sort_by_rank cs) later
              (sorted-In p routes cs j s m' e g' comp') s g' acc';
      }
