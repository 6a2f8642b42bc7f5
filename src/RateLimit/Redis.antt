-- ===== src/RateLimit/Redis.antt =====
-- src/core/ratelimit/redis_store.rs: the limiter with its scripts. The scripts run on the Redis
-- server one at a time; what they keep there is a bucket and a sorted set for each key. The numbers
-- of Lua are taken as exact for times, which count nanoseconds, and for the rest as those of `Float`.
use rapid_gate.Base.{
  ℕ, ◌+◌, ◌-◌, ◌*◌, ltb, ◌==◌, ◌&&◌, Bool, true, false, any, keep, Option, none, some, List, [],
  ◌∷◌, ◌++◌, length, Text, codes, text_eq, if◌then◌else◌,
}
use rapid_gate.Error.{Result, ok, err, internal, guard, ◌>>◌}
use rapid_gate.RateLimit.{Decision, allow, deny}
use rapid_gate.RateLimit.Store.{Moka}
use rapid_gate.RateLimit.Sliding.{SlidingWindow}
use rapid_gate.RateLimit.Bucket.{Float, Bucket, TokenBucket}
use rapid_gate.RateLimit.Middleware.{Limiter, token, sliding, check_limiter}
use rapid_gate.RateLimit.Store
use rapid_gate.RateLimit.Sliding
use rapid_gate.RateLimit.Bucket

-- A member of the sorted set is the time and a random number; its score is the time.
abbrev pub Member : Type 0
Member = ℕ × ℕ

abbrev pub member_eq : Member → Member → Bool
member_eq (t, r) (u, s) = t == u && r == s

-- `ZREMRANGEBYSCORE key -inf (now - window)`
abbrev pub in_window : ℕ → ℕ → Member → Bool
in_window window now (score, r) = ltb now (score + window)

-- `ZADD`: a member that is there already is not added again
unfoldable pub zadd : Member → List Member → List Member
zadd x set = if any (member_eq x) set then set else set ++ (x ∷ [])

-- SLIDING_WINDOW_SCRIPT: the set afterwards, and whether the answer is 1. The key is dropped by
-- EXPIRE only when every member has left the window.
unfoldable pub sliding_window_script : ℕ → ℕ → ℕ → ℕ → List Member → List Member × Bool
unfolding zadd
sliding_window_script limit window now random set =
    let recent = keep (in_window window now) set in
    if ltb (length recent) limit then (zadd (now, random) recent, true) else (recent, false)

module _ (f : Float) where
  open f use {F64, from_u32, add, sub, mul, as_secs, ge}

  pub record TokenBucketConfig : Type 0 where
    pub capacity : ℕ
    pub rate : F64

  pub record SlidingWindowConfig : Type 0 where
    pub window : ℕ
    pub limit : ℕ

  pub data Algorithm : Type 0 where
    token_bucket : TokenBucketConfig → Algorithm
    sliding_window : SlidingWindowConfig → Algorithm

  -- the bucket that the script starts from
  abbrev pub stored_or_full : ℕ → ℕ → Option (Bucket f) → Bucket f
  stored_or_full capacity now none = record { tokens = from_u32 capacity; last_refill = now }
  stored_or_full capacity now (some b) = b

  -- TOKEN_BUCKET_SCRIPT for one token: nothing is written where it answers 0
  unfoldable pub token_bucket_script : ℕ → F64 → ℕ → Option (Bucket f) → Option (Bucket f) × Bool
  token_bucket_script capacity rate now stored =
      let b = stored_or_full capacity now stored in
      let tokens =
        f.min (from_u32 capacity) (add b.tokens (mul (as_secs (now - b.last_refill)) rate)) in
      if ge tokens (from_u32 1)
      then (some (record { tokens = sub tokens (from_u32 1); last_refill = now }), true)
      else (stored, false)

  -- what the server keeps
  pub record Server : Type 0 where
    pub bucket_of : Text → Option (Bucket f)
    pub set_of : Text → List Member

  abbrev pub write {ℓ} : {A : Type ℓ} → Text → A → (Text → A) → Text → A
  write key a old k = if text_eq key k then a else old k

  -- the state of the connection: none, one on which a script fails, or one that works
  pub data Connection : Type 0 where
    unreachable failing working : Connection

  abbrev pub decision : Bool → Decision
  decision answer = if answer then allow else deny

  module _ (windows : Moka (List ℕ)) (buckets : Moka (Bucket f)) where
    pub record RedisRateLimiter : Type 0 where
      pub algorithm : Algorithm
      pub local_fallback : Limiter f windows buckets

    -- `redis::Client::open` refuses what is not a URL of Redis.
    unfoldable pub new_token_bucket :
        (Text → Bool) → Text → TokenBucketConfig → Result RedisRateLimiter
    new_token_bucket is_url url c =
        guard (is_url url) (internal (codes "failed to create redis client"))
        >> ok (record {
          algorithm = token_bucket c;
          local_fallback = token (Bucket.new f c.capacity c.capacity) (Store.new buckets);
        })

    unfoldable pub new_sliding_window :
        (Text → Bool) → Text → SlidingWindowConfig → Result RedisRateLimiter
    unfolding Sliding.new
    new_sliding_window is_url url c =
        guard (is_url url) (internal (codes "failed to create redis client"))
        >> ok (record {
          algorithm = sliding_window c;
          local_fallback = sliding (Sliding.new c.limit c.limit) (Store.new windows);
        })

    unfoldable pub run_script : Algorithm → ℕ → ℕ → Text → Server → Server × Decision
    unfolding token_bucket_script sliding_window_script
    run_script (token_bucket c) now random key s =
        let answer = token_bucket_script c.capacity c.rate now (s.bucket_of key) in
        (record s { bucket_of = write key answer.0 s.bucket_of }, decision answer.1)
    run_script (sliding_window c) now random key s =
        let answer =
          sliding_window_script c.limit (c.window * 1_000_000_000) now random (s.set_of key) in
        (record s { set_of = write key answer.0 s.set_of }, decision answer.1)

    -- `check`: `clock` is the monotonic time, `now` the time since the epoch, if it is past it
    unfoldable pub check :
        Connection
        → ℕ
        → Option ℕ
        → ℕ
        → Text
        → RedisRateLimiter
        → Server
        → RedisRateLimiter × Server × Result Decision
    check unreachable clock now random key l s =
        let checked = check_limiter f windows buckets clock key l.local_fallback in
        (record l { local_fallback = checked.0 }, s, ok checked.1)
    check failing clock none random key l s =
        (l, s, err (internal (codes "failed to get timestamp")))
    check failing clock (some now) random key l s =
        (l, s, err (internal (codes "failed to execute script")))
    check working clock none random key l s =
        (l, s, err (internal (codes "failed to get timestamp")))
    check working clock (some now) random key l s =
        let answer = run_script l.algorithm now random key s in (l, answer.0, ok answer.1)
