-- ===== src/Breaker.antt =====
-- The circuit breaker: src/core/breaker. Times are nanoseconds of a monotonic clock.
pub mod Calls
pub mod Interleaved
mod Tests
use rapid_gate.Base.{ℕ, ◌+◌, ◌-◌, ◌*◌, ◌%◌, ◌^◌, leb, Option, none, some, Text, if◌then◌else◌}
use rapid_gate.Error.{CoreError, breaker_open, Result, ok, err}

pub data BreakerState : Type 0 where
  closed open_state half_open : BreakerState

-- `consecutive_failures` is a u32
pub record Breaker : Type 0 where
  pub name : Text
  pub failure_threshold : ℕ
  pub open_duration : ℕ
  pub state : BreakerState
  pub consecutive_failures : ℕ
  pub opened_at : Option ℕ

abbrev pub nanos_per_milli : ℕ
nanos_per_milli = 1_000_000

unfoldable pub new : Text → ℕ → ℕ → Breaker
new name failure_threshold open_duration_ms = record {
  name = name;
  failure_threshold = failure_threshold;
  open_duration = open_duration_ms * nanos_per_milli;
  state = closed;
  consecutive_failures = 0;
  opened_at = none;
}

unfoldable pub on_success : Breaker → Breaker
on_success b = record b { state = closed; consecutive_failures = 0; opened_at = none }

-- `*fail += 1` wraps in a release build.
unfoldable pub on_failure : ℕ → Breaker → Breaker
on_failure now b =
    let fail = (b.consecutive_failures + 1) % 2 ^ 32 in
    if leb b.failure_threshold fail
    then record b { state = open_state; consecutive_failures = fail; opened_at = some now }
    else record b { consecutive_failures = fail }

-- `Instant::elapsed` is 0 where the clock stands before the instant, as `-` is.
abbrev pub half_open_if : ℕ → Option ℕ → Breaker → Breaker
half_open_if now none b = b
half_open_if now (some t) b =
    if leb b.open_duration (now - t) then record b { state = half_open } else b

abbrev pub half_open_from : BreakerState → ℕ → Breaker → Breaker
half_open_from open_state now b = half_open_if now b.opened_at b
half_open_from closed now b = b
half_open_from half_open now b = b

unfoldable pub try_half_open : ℕ → Breaker → Breaker
try_half_open now b = half_open_from b.state now b

-- what `call` does with the outcome of its future, which ends at `later`
unfoldable pub settle {ℓ} : {T : Type ℓ} → ℕ → Result T → Breaker → Breaker × Result T
unfolding on_success on_failure
settle later (ok v) b = (on_success b, ok v)
settle later (err e) b = (on_failure later b, err e)

abbrev pub dispatch {ℓ} : {T : Type ℓ} → BreakerState → ℕ → Result T → Breaker → Breaker × Result T
dispatch open_state later outcome b = (b, err (breaker_open b.name))
dispatch closed later outcome b = settle later outcome b
dispatch half_open later outcome b = settle later outcome b

-- A call at `now` of a future with that outcome, with no other call in between.
unfoldable pub call {ℓ} : {T : Type ℓ} → ℕ → ℕ → Result T → Breaker → Breaker × Result T
unfolding try_half_open settle
call now later outcome b = let b' = try_half_open now b in dispatch b'.state later outcome b'
