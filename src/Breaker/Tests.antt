-- ===== src/Breaker/Tests.antt =====
-- Concrete runs of the breaker.
use rapid_gate.Base.{[], ◌∷◌, codes, ◌≡◌, arith}
use rapid_gate.Breaker.{BreakerState, closed, open_state, new, try_half_open}
use rapid_gate.Breaker.Calls.{fail_all-new, fail_all}
use rapid_gate.Breaker.Interleaved.{System, admit, Reach, here, next, Inv, start, Reach-Inv}

fail_all-new_example : (fail_all (5 ∷ 6 ∷ []) (new (codes "llm") 2 30)).state ≡ open_state
fail_all-new_example =
    fail_all-new (codes "llm") 2 30 (5 ∷ 6 ∷ []) (omega arith) (omega arith) (omega arith)

abbrev started : System
started = start (codes "llm") 2 30

abbrev one_call : System
one_call = record { breaker = try_half_open 9 (new (codes "llm") 2 30); in_flight = 1 }

one_call_reached : Reach started 1 one_call
unfolding try_half_open new
one_call_reached = next here (admit 9 (λ e. closed≢open e))
  where
    closed≢open : ◌≡◌ {A = BreakerState} closed open_state → ⊥
    closed≢open e = cc

Reach-Inv_example : Inv 2 1 (try_half_open 9 (new (codes "llm") 2 30))
Reach-Inv_example =
    Reach-Inv (codes "llm") 2 30 1 {s = one_call} (omega arith) (omega arith) one_call_reached
