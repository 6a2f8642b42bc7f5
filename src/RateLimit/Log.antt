-- ===== src/RateLimit/Log.antt =====
-- Lists of times in order, and what is left of them in a window.
use rapid_gate.Base.{
  ℕ, ◌-◌, ◌≤◌, ltb, leb, ltb-false, List, [], ◌∷◌, ◌++◌, length, keep, All, All-append, ◌≡◌, refl,
  arith, Bool-cases, inl, inr,
}
use rapid_gate.RateLimit.Sliding.{pop_old}

-- the times that lie in the window that ends at `now`
abbrev pub recent : ℕ → ℕ → List ℕ → List ℕ
recent window now times = keep (λ t. leb (now - t) window) times

abbrev pub IsSorted : List ℕ → Type 0
IsSorted [] = Unit
IsSorted (t ∷ ts) = All (λ u. t ≤ u) ts × IsSorted ts

-- On times in order, the loop leaves what lies in the window.
keep-All :
    (window now t : ℕ) (ts : List ℕ)
    → now - t ≤ window
    → All (λ u. t ≤ u) ts
    → recent window now ts ≡ ts
keep-All window now t [] h a = refl
keep-All window now t (u ∷ us) h (le, a) = ground (arith, keep-All window now t us h a)

pub pop_old-recent :
    (window now : ℕ) (ts : List ℕ) → IsSorted ts → pop_old window now ts ≡ recent window now ts
unfolding pop_old
pop_old-recent window now [] s = refl
pop_old-recent window now (t ∷ ts) (a, s) = elim (Bool-cases (ltb window (now - t))) [
  | inl e ↦ ground (arith, pop_old-recent window now ts s)
  | inr e ↦ ground (arith, keep-All window now t ts (ltb-false window (now - t) e) a)
]

-- A later window leaves of an earlier one what it leaves of everything.
pub pop_old-pop_old :
    (window now now' : ℕ) (ts : List ℕ)
    → now ≤ now'
    → pop_old window now' (pop_old window now ts) ≡ pop_old window now' ts
unfolding pop_old
pop_old-pop_old window now now' [] le = refl
pop_old-pop_old window now now' (t ∷ ts) le = elim (Bool-cases (ltb window (now - t))) [
  | inl e ↦ ground (arith, pop_old-pop_old window now now' ts le)
  | inr e ↦ rw (e, pop_old) refl
]

pub pop_old-nil : (window now : ℕ) → pop_old window now [] ≡ []
unfolding pop_old
pop_old-nil window now = refl

pub pop_old-snoc :
    (window now : ℕ) (ts : List ℕ)
    → pop_old window now (ts ++ (now ∷ [])) ≡ pop_old window now ts ++ (now ∷ [])
unfolding pop_old
pop_old-snoc window now [] = ground arith
pop_old-snoc window now (t ∷ ts) = ground (arith, pop_old-snoc window now ts)

pub recent-length :
    (window now now' : ℕ) (ts : List ℕ)
    → now ≤ now'
    → length (recent window now' ts) ≤ length (recent window now ts)
recent-length window now now' [] le = omega arith
recent-length window now now' (t ∷ ts) le = ground (arith, recent-length window now now' ts le)

All-snoc : (P : ℕ → Type 0) (ts : List ℕ) (t : ℕ) → All P ts → P t → All P (ts ++ (t ∷ []))
All-snoc P ts t a p = All-append P ts (t ∷ []) a (p, tt)

pub IsSorted-snoc :
    (now : ℕ) (ts : List ℕ) → IsSorted ts → All (λ t. t ≤ now) ts → IsSorted (ts ++ (now ∷ []))
IsSorted-snoc now [] s a = (tt, tt)
IsSorted-snoc now (t ∷ ts) (le, s) (h, a) =
    (All-snoc (λ u. t ≤ u) ts now le h, IsSorted-snoc now ts s a)

pub All-later :
    (now now' : ℕ) (ts : List ℕ) → now ≤ now' → All (λ t. t ≤ now) ts → All (λ t. t ≤ now') ts
All-later now now' [] le a = tt
All-later now now' (t ∷ ts) le (h, a) = (omega arith, All-later now now' ts le a)

pub All-now :
    (now now' : ℕ) (ts : List ℕ)
    → now ≤ now'
    → All (λ t. t ≤ now) ts
    → All (λ t. t ≤ now') (ts ++ (now' ∷ []))
All-now now now' ts le a =
    All-snoc (λ t. t ≤ now') ts now' (All-later now now' ts le a) (omega arith)
