-- ===== src/RateLimit/Bucket.antt =====
-- src/core/ratelimit/token_bucket.rs. The arithmetic of f64 and `Duration::as_secs_f64` are
-- parameters, with the laws of IEEE 754 on the whole numbers that a u32 holds.
use rapid_gate.Base.{ℕ, suc, ◌-◌, ◌^◌, ◌<◌, ◌≤◌, leb, Bool, Text, ◌≡◌, if◌then◌else◌}
use rapid_gate.RateLimit.{Decision, allow, deny}
use rapid_gate.RateLimit.Store.{Moka, update}

pub record Float : Type 1 where
  pub F64 : Type 0
  pub from_u32 : ℕ → F64
  pub add : F64 → F64 → F64
  pub sub : F64 → F64 → F64
  pub mul : F64 → F64 → F64
  pub min : F64 → F64 → F64
  pub ge : F64 → F64 → Bool
  pub as_secs : ℕ → F64

-- Whole numbers below 2^32 are exact, and no time adds nothing.
pub record IsExact (f : Float) : Type 0 where
  pub sub_one : (n : ℕ) → suc n < 2 ^ 32 → f.sub (f.from_u32 (suc n)) (f.from_u32 1) ≡ f.from_u32 n
  pub add_none :
      (n r : ℕ)
      → n < 2 ^ 32
      → r < 2 ^ 32
      → f.add (f.from_u32 n) (f.mul (f.as_secs 0) (f.from_u32 r)) ≡ f.from_u32 n
  pub min_left : (n b : ℕ) → n ≤ b → b < 2 ^ 32 → f.min (f.from_u32 n) (f.from_u32 b) ≡ f.from_u32 n
  pub ge_one : (n : ℕ) → n < 2 ^ 32 → f.ge (f.from_u32 n) (f.from_u32 1) ≡ leb 1 n

module _ (f : Float) where
  open f use {F64, from_u32, add, sub, mul, as_secs, ge}

  pub record Bucket : Type 0 where
    pub tokens : F64
    pub last_refill : ℕ

  pub record TokenBucket : Type 0 where
    pub rps : F64
    pub burst : F64

  unfoldable pub new : ℕ → ℕ → TokenBucket
  new rps burst = record { rps = from_u32 rps; burst = from_u32 burst }

  -- the bucket of a key that is not stored
  abbrev pub full : TokenBucket → ℕ → Bucket
  full t now = record { tokens = t.burst; last_refill = now }

  -- the closure that adds the tokens of the time since the last refill
  unfoldable pub refill : TokenBucket → ℕ → Bucket → Bucket
  refill t now b =
      let elapsed = as_secs (now - b.last_refill) in
      record { tokens = f.min (add b.tokens (mul elapsed t.rps)) t.burst; last_refill = now }

  -- `check` at the time `now`, with no other check of the key in between
  module _ (m : Moka Bucket) where
    open m use {Cache}

    unfoldable pub check : TokenBucket → ℕ → Text → Cache → Cache × Decision
    check t now key c =
        let updated = update m key (full t now) (refill t now) c in
        if ge updated.1.tokens (from_u32 1)
        then (
          m.insert key (record updated.1 { tokens = sub updated.1.tokens (from_u32 1) }) updated.0,
          allow,
        )
        else (updated.0, deny)
