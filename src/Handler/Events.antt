-- ===== src/Handler/Events.antt =====
-- `find_sse_event_end` finds the first end of an event, and misses none.
use rapid_gate.Base.{
  ℕ, zero, suc, ◌<◌, true, false, Option, none, some, List, [], ◌∷◌, drop, ◌≡◌, refl, sym, ◌∙◌,
  arith, starts_with, Bool-cases, inl, inr, if◌then◌else◌,
}
use rapid_gate.Handler.Sse.{is_event_end, further, find_sse_event_end}

further-some : (o : Option ℕ) (i : ℕ) → further o ≡ some (suc i) → o ≡ some i
further-some none i h = cc
further-some (some j) i h = cc

further≢zero : (o : Option ℕ) → further o ≡ some 0 → ⊥
further≢zero none h = cc
further≢zero (some j) h = cc

further-none : (o : Option ℕ) → further o ≡ none → o ≡ none
further-none none h = refl
further-none (some j) h = cc

find_cons :
    (b : ℕ) (bytes : List ℕ)
    → find_sse_event_end (b ∷ bytes)
      ≡ (if is_event_end (b ∷ bytes) then some 0 else further (find_sse_event_end bytes))
unfolding find_sse_event_end
find_cons b bytes = refl

find_end :
    (b : ℕ) (bytes : List ℕ)
    → is_event_end (b ∷ bytes) ≡ true
    → find_sse_event_end (b ∷ bytes) ≡ some 0
find_end b bytes e = rw (find_cons b bytes) (rw e refl)

find_later :
    (b : ℕ) (bytes : List ℕ)
    → is_event_end (b ∷ bytes) ≡ false
    → find_sse_event_end (b ∷ bytes) ≡ further (find_sse_event_end bytes)
find_later b bytes e = rw (find_cons b bytes) (rw e refl)

zero≢suc : (i : ℕ) → ◌≡◌ {A = Option ℕ} (some 0) (some (suc i)) → ⊥
zero≢suc i h = cc

some≢none : (i : ℕ) → ◌≡◌ {A = Option ℕ} (some i) none → ⊥
some≢none i h = cc

pub found_end :
    (bytes : List ℕ) (i : ℕ)
    → find_sse_event_end bytes ≡ some i
    → is_event_end (drop i bytes) ≡ true
found_end [] i f = unfold find_sse_event_end in cc
found_end (b ∷ bytes) zero f = elim (Bool-cases (is_event_end (b ∷ bytes))) [
  | inl e ↦ e
  | inr e ↦ absurd (further≢zero (find_sse_event_end bytes) (sym (find_later b bytes e) ∙ f))
]
found_end (b ∷ bytes) (suc i) f = elim (Bool-cases (is_event_end (b ∷ bytes))) [
  | inl e ↦ absurd (zero≢suc i (sym (find_end b bytes e) ∙ f))
  | inr e ↦
      found_end bytes i (further-some (find_sse_event_end bytes) i (sym (find_later b bytes e) ∙ f))
]

no_end_before :
    (bytes : List ℕ) (i j : ℕ)
    → find_sse_event_end bytes ≡ some i
    → j < i
    → is_event_end (drop j bytes) ≡ false
no_end_before [] i j f lt = unfold find_sse_event_end in cc
no_end_before (b ∷ bytes) zero j f lt = absurd (omega arith)
no_end_before (b ∷ bytes) (suc i) j f lt = elim (Bool-cases (is_event_end (b ∷ bytes))) [
  | inl e ↦ absurd (zero≢suc i (sym (find_end b bytes e) ∙ f))
  | inr e ↦ earlier j lt e (λ k l.
      no_end_before bytes i k
        (further-some (find_sse_event_end bytes) i (sym (find_later b bytes e) ∙ f)) l)
]
  where
    earlier :
        (j : ℕ)
        → j < suc i
        → is_event_end (b ∷ bytes) ≡ false
        → ((k : ℕ) → k < i → is_event_end (drop k bytes) ≡ false)
        → is_event_end (drop j (b ∷ bytes)) ≡ false
    earlier zero lt e rest = e
    earlier (suc k) lt e rest = rest k (omega arith)

-- A position that is found is an end, and no position before it is one.
pub find_sse_event_end-first :
    (bytes : List ℕ) (i j : ℕ)
    → find_sse_event_end bytes ≡ some i
    → j < i
    → (is_event_end (drop i bytes) ≡ true) × (is_event_end (drop j bytes) ≡ false)
find_sse_event_end-first bytes i j f lt = (found_end bytes i f, no_end_before bytes i j f lt)

-- Where nothing is found, no position is an end.
pub find_sse_event_end-missing :
    (bytes : List ℕ) (i : ℕ) → find_sse_event_end bytes ≡ none → is_event_end (drop i bytes) ≡ false
unfolding starts_with
find_sse_event_end-missing [] zero f = refl
find_sse_event_end-missing [] (suc i) f = refl
find_sse_event_end-missing (b ∷ bytes) i f = elim (Bool-cases (is_event_end (b ∷ bytes))) [
  | inl e ↦ absurd (some≢none 0 (sym (find_end b bytes e) ∙ f))
  | inr e ↦ later i e (λ k.
      find_sse_event_end-missing bytes k
        (further-none (find_sse_event_end bytes) (sym (find_later b bytes e) ∙ f)))
]
  where
    later :
        (i : ℕ)
        → is_event_end (b ∷ bytes) ≡ false
        → ((k : ℕ) → is_event_end (drop k bytes) ≡ false)
        → is_event_end (drop i (b ∷ bytes)) ≡ false
    later zero e rest = e
    later (suc k) e rest = rest k
