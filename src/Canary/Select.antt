-- ===== src/Canary/Select.antt =====
-- src/core/routing/canary.rs: the session first, then the policy.
use rapid_gate.Base.{
  ℕ, ◌-◌, ◌<◌, ltb, ltb→lt, Option, none, some, List, Text, codes, get_elem?, get_elem?-total,
  length, ◌≡◌, refl, arith, Bool-cases, Option-cases, inl, inr,
}
use rapid_gate.Config.{UpstreamConfig}
use rapid_gate.Error.{route_not_found, Result, ok, err}
use rapid_gate.Canary.Policy.{
  Headers, Draw, CanaryPolicy, by_weight, by_header, by_cookie, select_index,
}
use rapid_gate.Canary.Sticky.{StickySession, extract_session_id}
use rapid_gate.Canary.Sticky

pub record CanaryRouter : Type 0 where
  pub policy : CanaryPolicy
  pub sticky : Option StickySession

-- `.get(idx).ok_or_else(..)`
abbrev pub upstream_at : List UpstreamConfig → ℕ → Result UpstreamConfig
upstream_at upstreams i = elim (get_elem? upstreams i) [
  | none ↦ err (route_not_found (codes "no upstream available"))
  | some u ↦ ok u
]

-- the session of the request, if sessions are configured and the cookie is there
unfoldable pub session_of : CanaryRouter → Headers → Option Text
unfolding extract_session_id
session_of r cookies = elim r.sticky [
  | none ↦ none
  | some sticky ↦ extract_session_id sticky cookies
]

module _ (sha256 : List ℕ → List ℕ) (first second : Draw) where
  unfoldable pub select_upstream :
      CanaryRouter → Headers → Headers → List UpstreamConfig → Result UpstreamConfig
  unfolding session_of select_index Sticky.select_upstream
  select_upstream r headers cookies upstreams = elim (session_of r cookies) [
    | some session_id ↦
        upstream_at upstreams (Sticky.select_upstream sha256 session_id (length upstreams))
    | none ↦
        upstream_at upstreams
          (select_index first second r.policy headers cookies (length upstreams))
  ]

  select_index_lt :
      (p : CanaryPolicy) (headers cookies : Headers) (n : ℕ)
      → ((k : ℕ) → 0 < k → second k < k)
      → 0 < n
      → select_index first second p headers cookies n < n
  unfolding select_index
  select_index_lt (by_weight p) headers cookies n draw pos = elim (Bool-cases (ltb 1 n)) [
    | inl e ↦ let bound = draw (n - 1) (omega (arith, ltb→lt 1 n e)) in ground arith
    | inr e ↦ ground arith
  ]
  select_index_lt (by_header p) headers cookies n draw pos = ground arith
  select_index_lt (by_cookie p) headers cookies n draw pos = ground arith

  sticky_lt : (s : Text) (n : ℕ) → 0 < n → Sticky.select_upstream sha256 s n < n
  unfolding Sticky.select_upstream
  sticky_lt s n pos = ground arith

  upstream_at-total :
      (ups : List UpstreamConfig) (i : ℕ)
      → i < length ups
      → (u : UpstreamConfig) × (get_elem? ups i ≡ some u) × (upstream_at ups i ≡ ok u)
  upstream_at-total ups i h =
      let (u, e) = get_elem?-total ups i h in (u, e, rw (e, upstream_at) refl)

  -- Where a draw from a range lies in the range, a router with at least one upstream always selects
  -- one of them, with any policy and with or without a session.
  pub select_upstream-total :
      (r : CanaryRouter) (headers cookies : Headers) (ups : List UpstreamConfig)
      → ((k : ℕ) → 0 < k → second k < k)
      → 0 < length ups
      → (i : ℕ) × (u : UpstreamConfig) × (get_elem? ups i ≡ some u)
        × (select_upstream r headers cookies ups ≡ ok u)
  unfolding select_upstream
  select_upstream-total r headers cookies ups draw pos =
      elim (Option-cases (session_of r cookies)) [
        | inl e ↦
            let i = select_index first second r.policy headers cookies (length ups) in
            let (u, at, res) =
              upstream_at-total ups i
                (select_index_lt r.policy headers cookies (length ups) draw pos) in
            (i, u, at, rw (e, select_upstream) res)
        | inr (s, e) ↦
            let i = Sticky.select_upstream sha256 s (length ups) in
            let (u, at, res) = upstream_at-total ups i (sticky_lt s (length ups) pos) in
            (i, u, at, rw (e, select_upstream) res)
      ]

-- The requests of one session go to the same upstream, whatever the policies, the headers and the
-- numbers drawn, as long as the upstreams are the same.
pub select_upstream-sticky :
    (sha256 : List ℕ → List ℕ) (f s f' s' : Draw) (r r' : CanaryRouter) (session : Text)
    (headers headers' cookies cookies' : Headers) (ups : List UpstreamConfig)
    → session_of r cookies ≡ some session
    → session_of r' cookies' ≡ some session
    → select_upstream sha256 f s r headers cookies ups
      ≡ select_upstream sha256 f' s' r' headers' cookies' ups
unfolding select_upstream
select_upstream-sticky sha256 f s f' s' r r' session headers headers' cookies cookies' ups e e' =
    rw (e, select_upstream) (rw (e', select_upstream) refl)
