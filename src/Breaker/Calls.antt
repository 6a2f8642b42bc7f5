-- ===== src/Breaker/Calls.antt =====
-- Calls one after the other.
use rapid_gate.Base.{
  ℕ, suc, ◌+◌, ◌-◌, ◌^◌, ◌<◌, ◌≤◌, none, some, List, [], ◌∷◌, length, Text, ◌≡◌, refl, arith, ◌==◌,
  if◌then◌else◌, Bool-cases, inl, inr,
}
use rapid_gate.Error.{CoreError, breaker_open, Result, ok, err}
use rapid_gate.Breaker.{Breaker, closed, open_state, new, call}

-- An open breaker rejects the call before its time is up, whatever the future would have given,
-- and stays as it is.
pub call-open {ℓ} :
    {T : Type ℓ} (b : Breaker) (t now later : ℕ) (outcome : Result T)
    → b.state ≡ open_state
    → b.opened_at ≡ some t
    → now - t < b.open_duration
    → call now later outcome b ≡ (b, err (breaker_open b.name))
unfolding call
call-open b t now later outcome s o h = ground arith

-- Once the time of an open breaker is up, and its count is at least the threshold and does not wrap
-- around, one call decides: its success closes the breaker and clears the count, its failure opens
-- it again from then on.
pub call-probe {ℓ} :
    {T : Type ℓ} (b : Breaker) (t now later : ℕ) (v : T) (e : CoreError)
    → b.state ≡ open_state
    → b.opened_at ≡ some t
    → b.open_duration ≤ now - t
    → b.failure_threshold ≤ b.consecutive_failures
    → b.consecutive_failures + 1 < 2 ^ 32
    → let good = call now later (ok v) b in
      let bad = call {T = T} now later (err e) b in
      ((good.0.state ≡ closed)
        × (good.0.consecutive_failures ≡ 0)
        × (good.0.opened_at ≡ none)
        × (good.1 ≡ ok v))
      × ((bad.0.state ≡ open_state) × (bad.0.opened_at ≡ some later) × (bad.1 ≡ err e))
unfolding call
call-probe b t now later v e s o h c w = ground arith

-- calls that fail, at the given times, each after the one before
abbrev pub fail_all : List ℕ → Breaker → Breaker
fail_all [] b = b
fail_all (now ∷ ts) b = fail_all ts (call {T = Unit {0}} now now (err CoreError.rate_limited) b).0

fail_step :
    (b : Breaker) (now k : ℕ)
    → b.state ≡ closed
    → b.consecutive_failures ≡ k
    → suc k < b.failure_threshold
    → b.failure_threshold < 2 ^ 32
    → let b' = (call {T = Unit {0}} now now (err CoreError.rate_limited) b).0 in
      (b'.state ≡ closed)
      × (b'.consecutive_failures ≡ suc k)
      × (b'.failure_threshold ≡ b.failure_threshold)
unfolding call
fail_step b now k s c h w = ground arith

fail_last :
    (b : Breaker) (now k : ℕ)
    → b.state ≡ closed
    → b.consecutive_failures ≡ k
    → suc k ≡ b.failure_threshold
    → b.failure_threshold < 2 ^ 32
    → (call {T = Unit {0}} now now (err CoreError.rate_limited) b).0.state ≡ open_state
unfolding call
fail_last b now k s c h w = ground arith

fail_all-closed :
    (ts : List ℕ) (b : Breaker) (k : ℕ)
    → b.state ≡ closed
    → b.consecutive_failures ≡ k
    → k + length ts < b.failure_threshold
    → b.failure_threshold < 2 ^ 32
    → ((fail_all ts b).state ≡ closed) × ((fail_all ts b).consecutive_failures ≡ k + length ts)
fail_all-closed [] b k s c h w = (s, omega arith)
fail_all-closed (t ∷ ts) b k s c h w =
    let (s', c', n') = fail_step b t k s c (omega arith) w in
    let (done, count) =
      fail_all-closed ts (call {T = Unit {0}} t t (err CoreError.rate_limited) b).0 (suc k) s' c'
        (omega arith) (omega arith) in
    (done, omega arith)

fail_all-open :
    (t : ℕ) (ts : List ℕ) (b : Breaker) (k : ℕ)
    → b.state ≡ closed
    → b.consecutive_failures ≡ k
    → k + suc (length ts) ≡ b.failure_threshold
    → b.failure_threshold < 2 ^ 32
    → (fail_all (t ∷ ts) b).state ≡ open_state
fail_all-open t [] b k s c h w = fail_last b t k s c (omega arith) w
fail_all-open t (u ∷ ts) b k s c h w =
    let (s', c', n') = fail_step b t k s c (omega arith) w in
    fail_all-open u ts (call {T = Unit {0}} t t (err CoreError.rate_limited) b).0 (suc k) s' c'
      (omega arith) (omega arith)

-- A new breaker with a positive u32 threshold stays closed while fewer calls than that have failed
-- in a row, and is open after exactly that many.
pub fail_all-new :
    (name : Text) (n ms : ℕ) (ts : List ℕ)
    → 0 < n
    → n < 2 ^ 32
    → length ts ≤ n
    → (fail_all ts (new name n ms)).state ≡ (if length ts == n then open_state else closed)
unfolding new
fail_all-new name n ms [] pos w le = ground arith
fail_all-new name n ms (t ∷ ts) pos w le = elim (Bool-cases (length (t ∷ ts) == n)) [
  | inl e ↦ rw e (fail_all-open t ts (new name n ms) 0 refl refl (ground arith) w)
  | inr e ↦ rw e (fail_all-closed (t ∷ ts) (new name n ms) 0 refl refl (ground arith) w).0
]
