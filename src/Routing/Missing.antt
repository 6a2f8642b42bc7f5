-- ===== src/Routing/Missing.antt =====
-- When `match_request` finds no route, and that it never indexes out of bounds.
use rapid_gate.Base.{
  ℕ, false, some, List, [], ◌∷◌, ◌≡◌, ◌≢◌, refl, sym, ◌∙◌, inl, inr, ◌↔◌, All, get_elem?,
  Bool-cases, Text,
}
use rapid_gate.Config.{RouteConfig}
use rapid_gate.Platform.{Platform}
use rapid_gate.Routing.Matcher.{
  Matcher, Pairs, panic, missing, found, compile, full_match, first_match,
}
use rapid_gate.Routing.Table.{RouteTable, new, match_request, sort_by_rank}
use rapid_gate.Routing.Order.{Entry, In, All-sort}
use rapid_gate.Routing.Compiled.{IsCompiled, compile_from-IsCompiled, sorted-In, new-eq-some}
use rapid_gate.Routing.First.{at_index, first_match-hit, first_match-miss, match_request-sorted}

found≢missing : {k : ℕ} {r : RouteConfig} → found k r ≡ missing → ⊥
found≢missing h = cc

found≢panic : {k : ℕ} {r : RouteConfig} → found k r ≡ panic → ⊥
found≢panic h = cc

module _ (p : Platform) (method path : Text) (headers query : Pairs) where
  open p use {Regex}

  here_rejects :
      (m m' : Matcher Regex) (j k : ℕ) (s t : RouteConfig) (routes : List RouteConfig)
      → get_elem? routes k ≡ some t
      → full_match p m' t.match_rule method path headers query ≡ false
      → ◌≡◌ {A = Entry Regex} (m, j) (m', k)
      → get_elem? routes j ≡ some s
      → full_match p m s.match_rule method path headers query ≡ false
  here_rejects m m' j k s t routes e n same g = cc

  first_match-missing :
      (routes : List RouteConfig) (es : List (Entry Regex)) (m : Matcher Regex) (j : ℕ)
      (s : RouteConfig)
      → All (IsCompiled p 0 routes) es
      → first_match p routes es method path headers query ≡ missing
      → In (m, j) es
      → get_elem? routes j ≡ some s
      → full_match p m s.match_rule method path headers query ≡ false
  first_match-missing routes [] m j s c f x g = elim x [ ]
  first_match-missing routes ((m', k) ∷ es) m j s (c, cs) f x g =
      let e = at_index p method path headers query routes m' k c in
      elim (Bool-cases (full_match p m' c.route.match_rule method path headers query)) [
        | inl y ↦ absurd (
            found≢missing
              (sym (first_match-hit p method path headers query routes m' k es c.route e y) ∙ f))
        | inr n ↦ elim x [
          | inl same ↦ here_rejects m m' j k s c.route routes e n same g
          | inr later ↦
              first_match-missing routes es m j s cs
                (sym (first_match-miss p method path headers query routes m' k es c.route e n) ∙ f)
                later g
        ]
      ]

  first_match-rejects :
      (routes : List RouteConfig) (es : List (Entry Regex))
      → All (IsCompiled p 0 routes) es
      → ((j : ℕ) (s : RouteConfig) (m : Matcher Regex)
          → get_elem? routes j ≡ some s
          → compile p s.match_rule ≡ some m
          → full_match p m s.match_rule method path headers query ≡ false)
      → first_match p routes es method path headers query ≡ missing
  first_match-rejects routes [] c h = unfold first_match in refl
  first_match-rejects routes ((m, k) ∷ es) (c, cs) h =
      let e = at_index p method path headers query routes m k c in
      first_match-miss p method path headers query routes m k es c.route e
        (h k c.route m e c.compiled)
      ∙ first_match-rejects routes es cs h

  first_match-ne-panic :
      (routes : List RouteConfig) (es : List (Entry Regex))
      → All (IsCompiled p 0 routes) es
      → first_match p routes es method path headers query ≢ panic
  first_match-ne-panic routes [] c f = unfold first_match in cc
  first_match-ne-panic routes ((m, k) ∷ es) (c, cs) f =
      let e = at_index p method path headers query routes m k c in
      elim (Bool-cases (full_match p m c.route.match_rule method path headers query)) [
        | inl y ↦
            found≢panic
              (sym (first_match-hit p method path headers query routes m k es c.route e y) ∙ f)
        | inr n ↦
            first_match-ne-panic routes es cs
              (sym (first_match-miss p method path headers query routes m k es c.route e n) ∙ f)
      ]

  -- In a table whose routes compile, no route answers exactly when every route rejects the
  -- request.
  pub match_request-missing_iff :
      (routes : List RouteConfig) (t : RouteTable Regex)
      → new p routes ≡ some t
      → (match_request p t method path headers query ≡ missing) ↔ (
          (j : ℕ) (s : RouteConfig) (m : Matcher Regex)
          → get_elem? routes j ≡ some s
          → compile p s.match_rule ≡ some m
          → full_match p m s.match_rule method path headers query ≡ false)
  match_request-missing_iff routes t n =
      let (cs, e, built) = new-eq-some p routes t n in
      let all = All-sort (IsCompiled p 0 routes) cs (compile_from-IsCompiled p 0 routes cs e) in
      let same = match_request-sorted p method path headers query routes t cs built in
      (
        (λ f j s m g comp.
            first_match-missing routes (sort_by_rank cs) m j s all (sym same ∙ f)
              (sorted-In p routes cs j s m e g comp) g),
        (λ h. same ∙ first_match-rejects routes (sort_by_rank cs) all h),
      )

  -- Matching never indexes the route vector out of bounds.
  pub match_request-ne-panic :
      (routes : List RouteConfig) (t : RouteTable Regex)
      → new p routes ≡ some t
      → match_request p t method path headers query ≢ panic
  match_request-ne-panic routes t n f =
      let (cs, e, built) = new-eq-some p routes t n in
      first_match-ne-panic routes (sort_by_rank cs)
        (All-sort (IsCompiled p 0 routes) cs (compile_from-IsCompiled p 0 routes cs e))
        (sym (match_request-sorted p method path headers query routes t cs built) ∙ f)
