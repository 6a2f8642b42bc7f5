-- ===== src/RateLimit/Scripts.antt =====
-- What the scripts of src/core/ratelimit/redis_store.rs guarantee, and what the limiter does without
-- its server.
use rapid_gate.Base.{
  ℕ, ◌+◌, ◌<◌, Bool, Bool-cases, All, Option, none, some, List, [], ◌∷◌, map, Text, ◌≡◌, refl, ap,
  inl, inr,
}
use rapid_gate.Error.{Result, ok, err}
use rapid_gate.RateLimit.{Decision}
use rapid_gate.RateLimit.Store.{Moka}
use rapid_gate.RateLimit.Bucket.{Float, Bucket}
use rapid_gate.RateLimit.Middleware.{Limiter, check_limiter}
use rapid_gate.RateLimit.Redis.{
  Member, Server, unreachable, RedisRateLimiter, new_token_bucket, new_sliding_window, check,
}

-- every member of the set is in the window that ends with `now`
abbrev pub IsRecent : ℕ → ℕ → List Member → Type 0
IsRecent window now set = All (λ x. now < x.0 + window) set

module _ (f : Float) (windows : Moka (List ℕ)) (buckets : Moka (Bucket f)) where
  open f use {F64}

  -- the decisions on the requests for a key at given times, without a connection
  abbrev pub check_all :
      Text
      → RedisRateLimiter f windows buckets
      → Server f
      → List (ℕ × Option ℕ × ℕ)
      → List (Result Decision)
  check_all key l s [] = []
  check_all key l s ((clock, now, random) ∷ ts) =
      let r = check f windows buckets unreachable clock now random key l s in
      r.2 ∷ check_all key r.0 r.1 ts

  -- the decisions of a limiter of this process
  abbrev pub check_local : Text → Limiter f windows buckets → List ℕ → List (Result Decision)
  check_local key l [] = []
  check_local key l (clock ∷ ts) =
      let r = check_limiter f windows buckets clock key l in ok r.1 ∷ check_local key r.0 ts

  -- While the server cannot be reached the requests for a key are decided as by the limiter of this
  -- process, which never gives an error, whatever the time of day.
  pub check_all-check_local :
      (key : Text) (l : RedisRateLimiter f windows buckets) (s : Server f)
      (ts : List (ℕ × Option ℕ × ℕ))
      → check_all key l s ts ≡ check_local key l.local_fallback (map (λ t. t.0) ts)
  unfolding check
  check_all-check_local key l s [] = refl
  check_all-check_local key l s ((clock, now, random) ∷ ts) =
      let r = check_limiter f windows buckets clock key l.local_fallback in
      ap (λ rest. ok r.1 ∷ rest)
        (check_all-check_local key (record l { local_fallback = r.0 }) s ts)

  abbrev pub fallback_of :
      Result (RedisRateLimiter f windows buckets) → Option (Limiter f windows buckets)
  fallback_of (err e) = none
  fallback_of (ok l) = some l.local_fallback

  -- The limiter of this process that stands in for a bucket does not depend on the rate, nor that
  -- for a window on its length.
  pub new-local_fallback :
      (is_url : Text → Bool) (url : Text) (capacity : ℕ) (rate rate' : F64)
      (window window' limit : ℕ)
      → (fallback_of (
            new_token_bucket f windows buckets is_url url
              (record { capacity = capacity; rate = rate }))
          ≡ fallback_of (
              new_token_bucket f windows buckets is_url url
                (record { capacity = capacity; rate = rate' })))
        × (fallback_of (
              new_sliding_window f windows buckets is_url url
                (record { window = window; limit = limit }))
            ≡ fallback_of (
                new_sliding_window f windows buckets is_url url
                  (record { window = window'; limit = limit })))
  unfolding new_token_bucket new_sliding_window
  new-local_fallback is_url url capacity rate rate' window window' limit =
      elim (Bool-cases (is_url url)) [
        | inl open_url ↦ rw open_url (refl, refl)
        | inr closed ↦ rw closed (refl, refl)
      ]
