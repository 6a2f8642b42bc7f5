-- ===== src/Loader/Exact.antt =====
-- A configuration that passes `validate` always compiles, and only to exact matchers: the rule on
-- paths leaves no room for the prefix form (a trailing "/") and the regex form (a leading "~").
use rapid_gate.Base.{
  ℕ, suc, Bool, true, false, ◌&&◌, ltb, List, [], ◌∷◌, ◌≡◌, refl, ◌∙◌, ap, All, arith, some, none,
  codes, starts_with, ends_with, strip_prefix, len, Text, ==_iff,
}
use rapid_gate.Config.{RouteConfig, MatchRule}
use rapid_gate.Error.{ok}
use rapid_gate.Platform.{Platform, to_uppercase}
use rapid_gate.PathNorm.{slash, normalize}
use rapid_gate.Routing.Matcher.{Matcher, exact, rank, compile, compile_from, compile_all}
use rapid_gate.Routing.Table.{new, sort_by_rank, insert_by_rank}
use rapid_gate.Routing.Order.{Entry}
use rapid_gate.Loader.Validate.{LoadedConfig, validate}
use rapid_gate.Loader.Checks.{IsRouteValid, validate-IsValid}

rooted-strip_prefix :
    (path : Text) → starts_with (codes "/") path ≡ true → strip_prefix (codes "~") path ≡ none
unfolding starts_with strip_prefix
rooted-strip_prefix [] h = cc
rooted-strip_prefix (c ∷ s) h = ground (arith, ==_iff c b'/', ==_iff c b'~')

and_false : (b : Bool) → (b && false) ≡ false
and_false true = refl
and_false false = refl

module _ (p : Platform) where
  open p use {Regex}

  abbrev pub exact_of : MatchRule → Matcher Regex
  exact_of rule = exact (to_uppercase p rule.method) (normalize rule.path)

  -- the entries of exact routes, in the order of registration
  abbrev pub exact_from : ℕ → List RouteConfig → List (Entry Regex)
  exact_from i [] = []
  exact_from i (r ∷ rs) = (exact_of r.match_rule, i) ∷ exact_from (suc i) rs

  compile-exact :
      (rule : MatchRule)
      → (starts_with (codes "/") rule.path ≡ true) × (ends_with slash rule.path ≡ false)
      → compile p rule ≡ some (exact_of rule)
  unfolding compile
  compile-exact rule h =
      let (rooted, no_slash) = h in
      rw (rooted-strip_prefix rule.path rooted, compile)
        (rw (rooted, no_slash, and_false (ltb 1 (len rule.path))))

  compile_from-exact :
      (i : ℕ) (rs : List RouteConfig)
      → All (IsRouteValid p) rs
      → compile_from p i rs ≡ some (exact_from i rs)
  unfolding compile_from
  compile_from-exact i [] h = refl
  compile_from-exact i (r ∷ rs) (v, h) =
      rw (compile-exact r.match_rule (v.1, v.2), compile_from-exact (suc i) rs h)

  insert_exact :
      (r : RouteConfig) (i j : ℕ) (rs : List RouteConfig)
      → insert_by_rank (exact_of r.match_rule, i) (exact_from j rs)
        ≡ (exact_of r.match_rule, i) ∷ exact_from j rs
  unfolding insert_by_rank rank
  insert_exact r i j [] = refl
  insert_exact r i j (s ∷ rs) = refl

  sort_exact : (i : ℕ) (rs : List RouteConfig) → sort_by_rank (exact_from i rs) ≡ exact_from i rs
  unfolding sort_by_rank
  sort_exact i [] = refl
  sort_exact i (r ∷ rs) =
      ap (insert_by_rank (exact_of r.match_rule, i)) (sort_exact (suc i) rs)
      ∙ insert_exact r i (suc i) rs

  -- The table of a validated configuration exists, and tries exact matchers in the order of
  -- registration.
  pub validate-new :
      (cfg : LoadedConfig)
      → validate p cfg ≡ ok tt
      → new p cfg.routes ≡ some (record { routes = cfg.routes; compiled = exact_from 0 cfg.routes })
  unfolding new compile_all
  validate-new cfg h =
      rw (compile_from-exact 0 cfg.routes ((validate-IsValid p cfg).0 h).rules, new)
        (rw (sort_exact 0 cfg.routes))
