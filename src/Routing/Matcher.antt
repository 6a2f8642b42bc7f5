-- ===== src/Routing/Matcher.antt =====
-- src/core/routing/matcher.rs
use rapid_gate.Base.{
  ℕ, suc, ltb, Bool, true, false, ◌&&◌, ◌||◌, not, Option, none, some, List, [], ◌∷◌, any, all,
  get_elem?, Text, codes, text_eq, len, starts_with, strip_prefix, ends_with, trim, trim_end_by,
  eq_ignore_ascii_case, if◌then◌else◌, ◌++◌, ◌==◌,
}
use rapid_gate.Base.Maybe.{◌>>=◌}
use rapid_gate.Config.{MatchRule, HeaderMatch, QueryMatch, RouteConfig}
use rapid_gate.Platform.{Platform, to_uppercase}
use rapid_gate.PathNorm.{slash, normalize}

pub data Matcher (R : Type 0) : Type 0 where
  exact : Text → Text → Matcher R
  prefix : Text → Text → Matcher R
  regex : Text → R → Matcher R

abbrev pub Pairs : Type 0
Pairs = List (Text × Text)

-- what indexing a vector and matching a request can end in
pub data Lookup : Type 0 where
  panic : Lookup
  missing : Lookup
  found : ℕ → RouteConfig → Lookup

module _ {R : Type 0} where
  unfoldable pub method_of : Matcher R → Text
  method_of (exact m _) = m
  method_of (prefix m _) = m
  method_of (regex m _) = m

  -- the key by which `RouteTable::new` sorts
  unfoldable pub rank : Matcher R → ℕ
  rank (exact _ _) = 0
  rank (prefix _ _) = 1
  rank (regex _ _) = 2

unfoldable pub query_matches : List QueryMatch → Pairs → Bool
unfolding text_eq
query_matches want have =
    all (λ w. any (λ ((n, v) : Text × Text). text_eq n w.name && text_eq v w.value) have) want

module _ (p : Platform) where
  open p use {Regex, regex_new, is_match}

  -- `none` stands for `Err`, whose text is only a message.
  unfoldable pub compile : MatchRule → Option (Matcher Regex)
  unfolding to_uppercase starts_with strip_prefix ends_with len trim trim_end_by normalize
  compile rule =
      let method = to_uppercase p rule.method in
      elim (strip_prefix (codes "~") rule.path) [
        | some stripped ↦ do re ← regex_new (trim stripped); some (regex method re)
        | none ↦
            if not (starts_with (codes "/") rule.path)
            then none
            else if ltb 1 (len rule.path) && ends_with slash rule.path
            then some (prefix method (trim_end_by (λ c. c == slash) rule.path))
            else some (exact method (normalize rule.path))
      ]

  unfoldable pub method_matches : Matcher Regex → Text → Bool
  unfolding method_of to_uppercase text_eq
  method_matches m method =
      text_eq (method_of m) (to_uppercase p method) || text_eq (method_of m) (codes "ANY")

  unfoldable pub path_matches : Matcher Regex → Text → Bool
  unfolding text_eq starts_with
  path_matches (exact _ own) path = text_eq path own
  path_matches (prefix _ pre) path = text_eq path pre || starts_with (pre ++ (slash ∷ [])) path
  path_matches (regex _ pattern) path = is_match pattern path

  unfoldable pub matches : Matcher Regex → Text → Text → Bool
  unfolding method_matches path_matches
  matches m method path =
      if not (method_matches m method)
      then false
      else if not (path_matches m path)
      then false
      else true

  unfoldable pub value_matches : HeaderMatch → Text → Bool
  unfolding text_eq
  value_matches w v =
      if w.regex
      then elim (regex_new w.value) [ none ↦ false | some re ↦ is_match re v ]
      else text_eq v w.value

  unfoldable pub header_matches : List HeaderMatch → Pairs → Bool
  unfolding value_matches eq_ignore_ascii_case
  header_matches want have =
      all
        (λ w.
          any
            (λ ((n, v) : Text × Text).
              if not (eq_ignore_ascii_case n w.name) then false else value_matches w v)
            have)
        want

  unfoldable pub full_match : Matcher Regex → MatchRule → Text → Text → Pairs → Pairs → Bool
  unfolding matches header_matches query_matches
  full_match m rule method path headers query =
      if not (matches m method path)
      then false
      else header_matches rule.headers headers && query_matches rule.query query

  -- the loop of `compile_all`, which starts at index 0
  unfoldable pub compile_from : ℕ → List RouteConfig → Option (List (Matcher Regex × ℕ))
  unfolding compile
  compile_from i [] = some []
  compile_from i (r ∷ rs) = do
    m ← compile r.match_rule
    rest ← compile_from (suc i) rs
    some ((m, i) ∷ rest)

  unfoldable pub compile_all : List RouteConfig → Option (List (Matcher Regex × ℕ))
  unfolding compile_from
  compile_all routes = compile_from 0 routes

  unfoldable pub first_match :
      List RouteConfig → List (Matcher Regex × ℕ) → Text → Text → Pairs → Pairs → Lookup
  unfolding full_match
  first_match routes [] method path headers query = missing
  first_match routes ((m, i) ∷ compiled) method path headers query =
      let rest = first_match routes compiled method path headers query in
      elim (get_elem? routes i) [
        | none ↦ panic
        | some rule ↦
            if full_match m rule.match_rule method path headers query then found i rule else rest
      ]
