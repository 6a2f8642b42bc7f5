-- ===== src/Canary/Policy.antt =====
-- src/core/canary/policy.rs. A map of headers or cookies is its `get`; the two numbers that the
-- generator draws are a function of the length of the range.
use rapid_gate.Base.{
  ℕ, ◌+◌, ◌-◌, ltb, ◌==◌, ◌&&◌, Option, none, some, Text, text_eq, min, if◌then◌else◌,
}

abbrev pub Headers : Type 0
Headers = Text → Option Text

-- `gen_range(a..b)` is `a` plus a draw below `b - a`.
abbrev pub Draw : Type 0
Draw = ℕ → ℕ

pub record WeightPolicy : Type 0 where
  pub primary_weight : ℕ

pub record HeaderPolicy : Type 0 where
  pub header_name : Text
  pub header_value : Text
  pub target_index : ℕ

pub record CookiePolicy : Type 0 where
  pub cookie_name : Text
  pub cookie_value : Text
  pub target_index : ℕ

-- the implementations of the trait
pub data CanaryPolicy : Type 0 where
  by_weight : WeightPolicy → CanaryPolicy
  by_header : HeaderPolicy → CanaryPolicy
  by_cookie : CookiePolicy → CanaryPolicy

unfoldable pub new : ℕ → WeightPolicy
new primary_weight = record { primary_weight = min primary_weight 100 }

unfoldable pub select_by_weight : Draw → Draw → WeightPolicy → ℕ → ℕ
select_by_weight first second p upstream_count =
    if upstream_count == 0
    then 0
    else if upstream_count == 1
    then 0
    else if ltb (first 100) p.primary_weight
    then 0
    else 1 + second (upstream_count - 1)

unfoldable pub select_by_header : HeaderPolicy → Headers → ℕ → ℕ
unfolding text_eq
select_by_header p headers upstream_count = elim (headers p.header_name) [
  | none ↦ 0
  | some value ↦
      if text_eq value p.header_value && ltb p.target_index upstream_count
      then p.target_index
      else 0
]

unfoldable pub select_by_cookie : CookiePolicy → Headers → ℕ → ℕ
unfolding text_eq
select_by_cookie p cookies upstream_count = elim (cookies p.cookie_name) [
  | none ↦ 0
  | some value ↦
      if text_eq value p.cookie_value && ltb p.target_index upstream_count
      then p.target_index
      else 0
]

unfoldable pub select_index : Draw → Draw → CanaryPolicy → Headers → Headers → ℕ → ℕ
unfolding select_by_weight select_by_header select_by_cookie
select_index first second (by_weight p) headers cookies n = select_by_weight first second p n
select_index first second (by_header p) headers cookies n = select_by_header p headers n
select_index first second (by_cookie p) headers cookies n = select_by_cookie p cookies n
