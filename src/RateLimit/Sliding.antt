-- ===== src/RateLimit/Sliding.antt =====
-- src/core/ratelimit/sliding_window.rs. Times are nanoseconds of a monotonic clock.
use rapid_gate.Base.{ℕ, ◌-◌, ◌/◌, ltb, List, [], ◌∷◌, ◌++◌, length, max, Text, if◌then◌else◌}
use rapid_gate.RateLimit.{Decision, allow, deny}
use rapid_gate.RateLimit.Store.{Moka, update}

pub record SlidingWindow : Type 0 where
  pub window : ℕ
  pub max_requests : ℕ

abbrev pub nanos_per_sec : ℕ
nanos_per_sec = 1_000_000_000

-- `Duration::checked_div` rounds down to whole nanoseconds.
unfoldable pub new : ℕ → ℕ → SlidingWindow
new rps burst = record { window = nanos_per_sec / max rps 1; max_requests = rps }

-- the `while let` that drops the records outside the window
unfoldable pub pop_old : ℕ → ℕ → List ℕ → List ℕ
pop_old window now [] = []
pop_old window now (front ∷ rest) =
    let later = pop_old window now rest in if ltb window (now - front) then later else front ∷ rest

-- `check` at the time `now`, with no other check of the key in between
module _ (m : Moka (List ℕ)) where
  open m use {Cache}

  unfoldable pub check : SlidingWindow → ℕ → Text → Cache → Cache × Decision
  check w now key c =
      let updated = update m key [] (pop_old w.window now) c in
      if ltb (length updated.1) w.max_requests
      then (m.insert key (updated.1 ++ (now ∷ [])) updated.0, allow)
      else (updated.0, deny)
