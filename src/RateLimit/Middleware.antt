-- ===== src/RateLimit/Middleware.antt =====
-- src/service/middleware/ratelimit.rs. The limiter behind an `Arc` is the one that the cache holds:
-- what a check does to it is written back to the cache.
use rapid_gate.Base.{
  ℕ, false, Option, none, some, List, ◌++◌, Text, codes, text_eq, split, trim, is_empty, ◌≡◌, ◌≢◌,
  refl, ◌∙◌, Option-cases, inl, inr, Bool-cases, if◌then◌else◌,
}
use rapid_gate.Config.{RateLimitConfig, RouteConfig}
use rapid_gate.Url.{first_part}
use rapid_gate.RateLimit.{Decision}
use rapid_gate.RateLimit.Store.{Moka, Keeps, current}
use rapid_gate.RateLimit.Sliding.{SlidingWindow}
use rapid_gate.RateLimit.Bucket.{Float, Bucket, TokenBucket}
use rapid_gate.RateLimit.Store
use rapid_gate.RateLimit.Sliding
use rapid_gate.RateLimit.Bucket

-- the first address of X-Forwarded-For, where the header is there and is text
unfoldable pub extract_limit_key : Option Text → Text
unfolding split trim is_empty
extract_limit_key none = codes "unknown"
extract_limit_key (some ip) = elim (first_part (split b',' ip)) [
  | none ↦ codes "unknown"
  | some first ↦ if is_empty (trim first) then codes "unknown" else trim first
]

-- A request is never counted under the empty key.
pub extract_limit_key-filled : (header : Option Text) → is_empty (extract_limit_key header) ≡ false
unfolding extract_limit_key
extract_limit_key-filled none = refl
extract_limit_key-filled (some ip) = go (first_part (split b',' ip))
  where
    go :
        (part : Option Text)
        → is_empty (elim part [
          | none ↦ codes "unknown"
          | some first ↦ if is_empty (trim first) then codes "unknown" else trim first
        ])
          ≡ false
    go none = refl
    go (some first) = elim (Bool-cases (is_empty (trim first))) [
      | inl e ↦ rw e refl
      | inr e ↦ rw e e
    ]

module _ (f : Float) (windows : Moka (List ℕ)) (buckets : Moka (Bucket f)) where
  -- the two implementations of the trait, each with its store
  pub data Limiter : Type 0 where
    sliding : SlidingWindow → windows.Cache → Limiter
    token : TokenBucket f → buckets.Cache → Limiter

  unfoldable pub create : RateLimitConfig → Limiter
  create cfg =
      if text_eq cfg.algorithm (codes "sliding_window")
      then sliding (Sliding.new cfg.rps cfg.burst) (Store.new windows)
      else token (Bucket.new f cfg.rps cfg.burst) (Store.new buckets)

  unfoldable pub check_limiter : ℕ → Text → Limiter → Limiter × Decision
  check_limiter now key (sliding w c) =
      let r = Sliding.check windows w now key c in (sliding w r.0, r.1)
  check_limiter now key (token t c) =
      let r = Bucket.check f buckets t now key c in (token t r.0, r.1)

  abbrev pub rate_config : RateLimitConfig → RouteConfig → RateLimitConfig
  rate_config default_rate_limit route = elim route.rate_limit [
    | none ↦ default_rate_limit
    | some cfg ↦ cfg
  ]

  abbrev pub limiter_key : RateLimitConfig → RouteConfig → Text
  limiter_key default_rate_limit route =
      route.name ++ (codes ":" ++ (rate_config default_rate_limit route).algorithm)

  -- Neither limiter gives an error here; `allow` is `Ok(())` and `deny` the response of status 429.
  module _ (limiters : Moka Limiter) where
    unfoldable pub check_route_rate_limit :
        RateLimitConfig → ℕ → RouteConfig → Text → limiters.Cache → limiters.Cache × Decision
    check_route_rate_limit default_rate_limit now route client_key c =
        let key = limiter_key default_rate_limit route in
        let found =
          Store.get_or_insert limiters key (create (rate_config default_rate_limit route)) c in
        let checked = check_limiter now client_key found.1 in
        (limiters.insert key checked.0 found.0, checked.1)

    -- Where nothing is evicted, a request is decided by the limiter that the cache holds for its
    -- route and algorithm, or by a new one where it holds none, and what the check does to that
    -- limiter is kept for the next request.
    pub check_route_rate_limit-limiter :
        (default_rate_limit : RateLimitConfig) (now : ℕ) (route : RouteConfig) (client_key : Text)
        (c : limiters.Cache)
        → Keeps limiters
        → let key = limiter_key default_rate_limit route in
          let limiter = current limiters key (create (rate_config default_rate_limit route)) c in
          let result = check_route_rate_limit default_rate_limit now route client_key c in
          (result.1 ≡ (check_limiter now client_key limiter).1)
          × (limiters.get key result.0 ≡ some (check_limiter now client_key limiter).0)
    unfolding check_route_rate_limit
    check_route_rate_limit-limiter default_rate_limit now route client_key c laws =
        let key = limiter_key default_rate_limit route in
        let new = create (rate_config default_rate_limit route) in
        elim (Option-cases (limiters.get key c)) [
          | inl e ↦
              rw (Store.get_or_insert-miss limiters key new c e, e, current)
                (refl, laws.get-insert key _ _)
          | inr (l, e) ↦
              rw (Store.get_or_insert-hit limiters key new l c e, e, current)
                (refl, laws.get-insert key _ _)
        ]

    -- Where nothing is evicted, a request leaves the limiters of all other keys as they are.
    pub check_route_rate_limit-other :
        (default_rate_limit : RateLimitConfig) (now : ℕ) (route : RouteConfig)
        (client_key other : Text) (c : limiters.Cache)
        → Keeps limiters
        → limiter_key default_rate_limit route ≢ other
        → limiters.get other (check_route_rate_limit default_rate_limit now route client_key c).0
          ≡ limiters.get other c
    unfolding check_route_rate_limit
    check_route_rate_limit-other default_rate_limit now route client_key other c laws d =
        let key = limiter_key default_rate_limit route in
        let new = create (rate_config default_rate_limit route) in
        elim (Option-cases (limiters.get key c)) [
          | inl e ↦
              rw (Store.get_or_insert-miss limiters key new c e)
                (laws.get-insert_other key other _ _ d ∙ laws.get-insert_other key other new c d)
          | inr (l, e) ↦
              rw (Store.get_or_insert-hit limiters key new l c e)
                (laws.get-insert_other key other _ c d)
        ]
