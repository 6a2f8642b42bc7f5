-- ===== src/Breaker/Interleaved.antt =====
-- Calls that overlap: `call` takes its locks around `try_half_open`, `on_success` and `on_failure`,
-- and holds none while its future runs.
use rapid_gate.Base.{
  ℕ, zero, suc, ◌+◌, ◌^◌, ◌<◌, ◌≤◌, none, Text, ◌≡◌, ◌≢◌, refl, subst, sym, ◌∙◌, ap, arith,
}
use rapid_gate.Breaker.{
  BreakerState, Breaker, closed, open_state, half_open, new, on_success, on_failure, try_half_open,
}

-- the breaker, and how many admitted calls have not settled yet
pub record System : Type 0 where
  pub breaker : Breaker
  pub in_flight : ℕ

pub data Step (s : System) : System → Type 0 where
  admit :
      (now : ℕ)
      → (try_half_open now s.breaker).state ≢ open_state
      → Step s (record { breaker = try_half_open now s.breaker; in_flight = suc s.in_flight })
  reject :
      (now : ℕ)
      → (try_half_open now s.breaker).state ≡ open_state
      → Step s (record { breaker = try_half_open now s.breaker; in_flight = s.in_flight })
  succeed :
      (n : ℕ)
      → s.in_flight ≡ suc n
      → Step s (record { breaker = on_success s.breaker; in_flight = n })
  fail :
      (n now : ℕ)
      → s.in_flight ≡ suc n
      → Step s (record { breaker = on_failure now s.breaker; in_flight = n })

-- reached in the given number of steps
pub data Reach (s : System) : ℕ → System → Type 0 where
  here : Reach s zero s
  next : {n : ℕ} {t u : System} → Reach s n t → Step t u → Reach s (suc n) u

-- After `n` steps of a breaker whose threshold is `k`.
pub record Inv (k n : ℕ) (b : Breaker) : Type 0 where
  pub threshold : b.failure_threshold ≡ k
  pub counted : b.consecutive_failures ≤ n
  pub closed_below : b.state ≡ closed → b.consecutive_failures < k
  pub closed_clear : b.state ≡ closed → b.opened_at ≡ none
  pub tripped_above : b.state ≢ closed → k ≤ b.consecutive_failures
  pub tripped_since : b.state ≢ closed → b.opened_at ≢ none

try_half_open-Inv : (k n now : ℕ) (b : Breaker) → Inv k n b → Inv k (suc n) (try_half_open now b)
unfolding try_half_open
try_half_open-Inv k n now b i = ground arith

on_success-Inv : (k n : ℕ) (b : Breaker) → 0 < k → Inv k n b → Inv k (suc n) (on_success b)
unfolding on_success
on_success-Inv k n b pos i = ground arith

on_failure-Inv :
    (k n now : ℕ) (b : Breaker) → suc n < 2 ^ 32 → Inv k n b → Inv k (suc n) (on_failure now b)
unfolding on_failure
on_failure-Inv k n now b w i = ground arith

Step-Inv :
    {s u : System} (k n : ℕ)
    → 0 < k
    → suc n < 2 ^ 32
    → Step s u
    → Inv k n s.breaker
    → Inv k (suc n) u.breaker
Step-Inv {s} k n pos w (admit now h) i = try_half_open-Inv k n now s.breaker i
Step-Inv {s} k n pos w (reject now h) i = try_half_open-Inv k n now s.breaker i
Step-Inv {s} k n pos w (succeed m h) i = on_success-Inv k n s.breaker pos i
Step-Inv {s} k n pos w (fail m now h) i = on_failure-Inv k n now s.breaker w i

abbrev pub start : Text → ℕ → ℕ → System
start name k ms = record { breaker = new name k ms; in_flight = 0 }

new-Inv : (name : Text) (k ms : ℕ) → 0 < k → Inv k 0 (new name k ms)
unfolding new
new-Inv name k ms pos = ground arith

-- However calls overlap, after fewer than 2^32 steps a breaker with a positive threshold is closed
-- only below the threshold and with no opening time, and otherwise at or above it and with one.
pub Reach-Inv :
    (name : Text) (k ms n : ℕ) {s : System}
    → 0 < k
    → n < 2 ^ 32
    → Reach (start name k ms) n s
    → Inv k n s.breaker
Reach-Inv name k ms n pos w here = new-Inv name k ms pos
Reach-Inv name k ms n pos w (next {n = m} r st) =
    Step-Inv k m pos w st (Reach-Inv name k ms m pos (omega arith) r)

try_half_open-half : (now : ℕ) (b : Breaker) → b.state ≡ half_open → try_half_open now b ≡ b
unfolding try_half_open
try_half_open-half now b h = ground arith

admit_half :
    (s : System)
    → s.breaker.state ≡ half_open
    → Step s (record { breaker = s.breaker; in_flight = suc s.in_flight })
admit_half s h =
    let same = try_half_open-half 0 s.breaker h in
    subst (λ b. Step s (record { breaker = b; in_flight = suc s.in_flight })) same
      (admit 0 (λ e. half≢open (sym h ∙ ap Breaker.state (sym same) ∙ e)))
  where
    half≢open : ◌≡◌ {A = BreakerState} half_open open_state → ⊥
    half≢open e = cc

-- A half-open breaker admits any number of calls before the first one settles.
pub half_open-admits :
    (n : ℕ) (s : System)
    → s.breaker.state ≡ half_open
    → Reach s n (record { breaker = s.breaker; in_flight = n + s.in_flight })
half_open-admits zero s h =
    subst (λ k. Reach s zero (record { breaker = s.breaker; in_flight = k })) {x = s.in_flight}
      (omega arith) here
half_open-admits (suc n) s h =
    subst (λ k. Reach s (suc n) (record { breaker = s.breaker; in_flight = k }))
      {x = suc (n + s.in_flight)} (omega arith)
      (next (half_open-admits n s h)
        (admit_half (record { breaker = s.breaker; in_flight = n + s.in_flight }) h))

-- A success of a call in flight closes an open breaker, whatever time has passed.
pub late_success-closes :
    (s : System) (n : ℕ)
    → s.breaker.state ≡ open_state
    → s.in_flight ≡ suc n
    → (u : System) × Step s u × (u.breaker.state ≡ closed)
unfolding on_success
late_success-closes s n o h =
    (record { breaker = on_success s.breaker; in_flight = n }, succeed n h, refl)
