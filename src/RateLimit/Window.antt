-- ===== src/RateLimit/Window.antt =====
-- The sliding window refines a log of the admitted requests.
use rapid_gate.Base.{
  ℕ, ◌+◌, ◌≤◌, ltb, ltb→lt, Bool, true, false, none, List, [], ◌∷◌, ◌++◌, length, length-append,
  All, Text, ◌≡◌, ◌≢◌, refl, sym, ap, ◌∙◌, arith, Bool-cases, inl, inr, if◌then◌else◌,
}
use rapid_gate.RateLimit.{Decision, allow, deny}
use rapid_gate.RateLimit.Store.{
  Moka, Keeps, current, current-some, current-none, update, update-get, update-get_other,
}
use rapid_gate.RateLimit.Sliding.{SlidingWindow, pop_old, check}
use rapid_gate.RateLimit.Log.{
  recent, IsSorted, pop_old-recent, pop_old-pop_old, pop_old-nil, pop_old-snoc, recent-length,
  IsSorted-snoc, All-later, All-now,
}

-- The specification: the log holds the times of the admitted requests, and a request is admitted
-- where fewer than the maximum of them lie in the window that ends with it.
abbrev pub admits : SlidingWindow → ℕ → List ℕ → Bool
admits w now log = ltb (length (recent w.window now log)) w.max_requests

abbrev pub extend : SlidingWindow → ℕ → List ℕ → List ℕ
extend w now log = if admits w now log then log ++ (now ∷ []) else log

abbrev pub decide : Bool → Decision
decide admitted = if admitted then allow else deny

-- the entry of a key, after requests until `now` of which the log tells
pub record Tracks (w : SlidingWindow) (now : ℕ) (log entry : List ℕ) : Type 0 where
  pub kept : entry ≡ pop_old w.window now log
  pub sorted : IsSorted log
  pub past : All (λ t. t ≤ now) log
  pub bounded : length (recent w.window now log) ≤ w.max_requests

module _ (w : SlidingWindow) where
  popped :
      (now now' : ℕ) (log entry : List ℕ)
      → now ≤ now'
      → Tracks w now log entry
      → pop_old w.window now' entry ≡ pop_old w.window now' log
  popped now now' log entry le t =
      ap (pop_old w.window now') t.kept ∙ pop_old-pop_old w.window now now' log le

  same_test :
      (now now' : ℕ) (log entry : List ℕ)
      → now ≤ now'
      → Tracks w now log entry
      → ltb (length (pop_old w.window now' entry)) w.max_requests ≡ admits w now' log
  same_test now now' log entry le t =
      ap (λ ts. ltb (length ts) w.max_requests)
        (popped now now' log entry le t ∙ pop_old-recent w.window now' log t.sorted)

  denied-Tracks :
      (now now' : ℕ) (log entry : List ℕ)
      → now ≤ now'
      → Tracks w now log entry
      → Tracks w now' log (pop_old w.window now' entry)
  denied-Tracks now now' log entry le t = record {
    kept = popped now now' log entry le t;
    sorted = t.sorted;
    past = All-later now now' log le t.past;
    bounded = omega (arith, t.bounded, recent-length w.window now now' log le);
  }

  recent-new :
      (now : ℕ) (log : List ℕ)
      → IsSorted log
      → All (λ t. t ≤ now) log
      → length (recent w.window now (log ++ (now ∷ []))) ≡ length (recent w.window now log) + 1
  recent-new now log s p =
      let sorted = IsSorted-snoc now log s p in
      ap length (
        sym (pop_old-recent w.window now (log ++ (now ∷ [])) sorted)
        ∙ pop_old-snoc w.window now log)
      ∙ (length-append (pop_old w.window now log) (now ∷ [])
          ∙ ap (λ ts. length ts + 1) (pop_old-recent w.window now log s))

  allowed-Tracks :
      (now now' : ℕ) (log entry : List ℕ)
      → now ≤ now'
      → Tracks w now log entry
      → admits w now' log ≡ true
      → Tracks w now' (log ++ (now' ∷ [])) (pop_old w.window now' entry ++ (now' ∷ []))
  allowed-Tracks now now' log entry le t e =
      let past = All-later now now' log le t.past in
      let grown = recent-new now' log t.sorted past in
      let room = ltb→lt (length (recent w.window now' log)) w.max_requests e in
      record {
        kept =
            ap (λ ts. ts ++ (now' ∷ [])) (popped now now' log entry le t)
            ∙ sym (pop_old-snoc w.window now' log);
        sorted = IsSorted-snoc now' log t.sorted past;
        past = All-now now now' log le t.past;
        bounded = omega arith;
      }

module _ (m : Moka (List ℕ)) (laws : Keeps m) (w : SlidingWindow) (key : Text) where
  open m use {Cache}

  abbrev pub entry_of : Cache → List ℕ
  entry_of c = current m key [] c

  -- what an admitted and a denied check leave
  check-allow :
      (now : ℕ) (c : Cache)
      → ltb (length (pop_old w.window now (entry_of c))) w.max_requests ≡ true
      → (entry_of (check m w now key c).0 ≡ pop_old w.window now (entry_of c) ++ (now ∷ []))
        × ((check m w now key c).1 ≡ allow)
  unfolding check
  check-allow now c e =
      let (stored, value) = update-get m key [] (pop_old w.window now) c laws in
      let old = pop_old w.window now (entry_of c) in
      rw (value, e)
        (
          current-some m key [] (old ++ (now ∷ [])) _ (laws.get-insert key (old ++ (now ∷ [])) _),
          refl,
        )

  check-deny :
      (now : ℕ) (c : Cache)
      → ltb (length (pop_old w.window now (entry_of c))) w.max_requests ≡ false
      → (entry_of (check m w now key c).0 ≡ pop_old w.window now (entry_of c))
        × ((check m w now key c).1 ≡ deny)
  unfolding check
  check-deny now c e =
      let (stored, value) = update-get m key [] (pop_old w.window now) c laws in
      let old = pop_old w.window now (entry_of c) in
      rw (value, e) (current-some m key [] old _ stored, refl)

  -- Where nothing is evicted, and the entry tells what a log until `now` tells, a check at a time no
  -- earlier than `now` admits a request exactly as the log does, and leaves an entry that tells what
  -- the extended log tells: those of its times that lie in the window, at most the maximum.
  pub check-Tracks :
      (now now' : ℕ) (log : List ℕ) (c : Cache)
      → now ≤ now'
      → Tracks w now log (entry_of c)
      → Tracks w now' (extend w now' log) (entry_of (check m w now' key c).0)
        × ((check m w now' key c).1 ≡ decide (admits w now' log))
  check-Tracks now now' log c le t =
      let same = same_test w now now' log (entry_of c) le t in
      elim (Bool-cases (admits w now' log)) [
        | inl e ↦
            let (entry, verdict) = check-allow now' c (same ∙ e) in
            rw (e, entry) (allowed-Tracks w now now' log (entry_of c) le t e, verdict)
        | inr e ↦
            let (entry, verdict) = check-deny now' c (same ∙ e) in
            rw (e, entry) (denied-Tracks w now now' log (entry_of c) le t, verdict)
      ]

  -- the checks of the key at the given times, one after the other
  abbrev pub check_all : List ℕ → Cache → Cache × List Decision
  check_all [] c = (c, [])
  check_all (now ∷ ts) c =
      let first = check m w now key c in
      let rest = check_all ts first.0 in (rest.0, first.1 ∷ rest.1)

-- what the log decides for the requests at the given times
abbrev pub decide_all : SlidingWindow → List ℕ → List ℕ → List Decision
decide_all w log [] = []
decide_all w log (now ∷ ts) = decide (admits w now log) ∷ decide_all w (extend w now log) ts

module _ (m : Moka (List ℕ)) (w : SlidingWindow) (key : Text) (laws : Keeps m) where
  open m use {Cache}

  check_all-Tracks :
      (ts log : List ℕ) (now : ℕ) (c : Cache)
      → All (λ t. now ≤ t) ts
      → IsSorted ts
      → Tracks w now log (entry_of m laws w key c)
      → (check_all m laws w key ts c).1 ≡ decide_all w log ts
  check_all-Tracks [] log now c le s t = refl
  check_all-Tracks (now' ∷ ts) log now c (le, les) (a, s) t =
      let (t', verdict) = check-Tracks m laws w key now now' log c le t in
      let rest = check_all-Tracks ts (extend w now' log) now' (check m w now' key c).0 a s t' in cc

  -- Where nothing is evicted, requests for a fresh key at times in order are admitted and denied
  -- exactly as the log decides.
  pub check_all-decide_all :
      (ts : List ℕ) (c : Cache)
      → m.get key c ≡ none
      → IsSorted ts
      → (check_all m laws w key ts c).1 ≡ decide_all w [] ts
  check_all-decide_all ts c fresh s = check_all-Tracks ts [] 0 c (All-zero ts) s (record {
    kept = current-none m key [] c fresh ∙ sym (pop_old-nil w.window 0);
    sorted = tt;
    past = tt;
    bounded = omega arith;
  })
    where
      All-zero : (ts : List ℕ) → All (λ t. 0 ≤ t) ts
      All-zero [] = tt
      All-zero (t ∷ ts) = (omega arith, All-zero ts)

  -- Where nothing is evicted, a check leaves the entries of all other keys alone.
  pub check-other :
      (now : ℕ) (key' : Text) (c : Cache)
      → key ≢ key'
      → m.get key' (check m w now key c).0 ≡ m.get key' c
  unfolding check
  check-other now key' c d =
      let updated = update m key [] (pop_old w.window now) c in
      let others = update-get_other m key key' [] (pop_old w.window now) c laws d in
      elim (Bool-cases (ltb (length updated.1) w.max_requests)) [
        | inl e ↦ rw e (laws.get-insert_other key key' _ updated.0 d ∙ others)
        | inr e ↦ rw e others
      ]
