-- ===== src/Handler/Drain.antt =====
-- The loop that cuts events out of the buffer ends within its fuel, and what the scan of a stream
-- does with a chunk that completes no event.
use rapid_gate.Base.{
  ℕ, zero, suc, ◌+◌, ◌≤◌, ◌<◌, true, Option, none, some, Option-cases, List, [], ◌∷◌, ◌++◌, take,
  drop, length, Text, ◌≡◌, refl, ap, ◌∙◌, inl, inr, arith, starts_with,
}
use rapid_gate.Handler.Sse.{is_event_end, find_sse_event_end, parse_sse_data}
use rapid_gate.Handler.Events.{found_end}
use rapid_gate.Handler.Stream.{
  Chunk, bytes, broken, Event, ScanState, push_event, drain_events, answer, on_chunk, scan_events,
}

length-drop :
    {A : Type 0} (n : ℕ) (xs : List A) → n ≤ length xs → length (drop n xs) + n ≡ length xs
length-drop zero xs h = omega arith
length-drop (suc n) [] h = absurd (omega arith)
length-drop (suc n) (x ∷ xs) h = omega (arith, length-drop n xs)

-- the end of an event is two bytes long
is_event_end-le :
    (buffer : List ℕ) (i : ℕ) → is_event_end (drop i buffer) ≡ true → i + 2 ≤ length buffer
unfolding starts_with
is_event_end-le [] zero h = cc
is_event_end-le [] (suc i) h = cc
is_event_end-le (b ∷ []) zero h = ground arith
is_event_end-le (b ∷ c ∷ buffer) zero h = omega arith
is_event_end-le (b ∷ buffer) (suc i) h = omega (arith, is_event_end-le buffer i h)

pub find_sse_event_end-le :
    (buffer : List ℕ) (i : ℕ) → find_sse_event_end buffer ≡ some i → i + 2 ≤ length buffer
find_sse_event_end-le buffer i f = is_event_end-le buffer i (found_end buffer i f)

answer-total :
    (o : Option ScanState) (s : ScanState)
    → o ≡ some s
    → (r : ScanState × Option (List Event)) × (answer o ≡ some r)
answer-total none s h = cc
answer-total (some (buffer, [])) s h = (_, refl)
answer-total (some (buffer, e ∷ es)) s h = (_, refl)

module _ (utf8_lossy : List ℕ → Text) where
  -- what is pending after the event in front of position `i` is cut out
  abbrev pub with_event : List ℕ → List Event → ℕ → List Event
  with_event buffer pending i =
      push_event utf8_lossy pending (parse_sse_data (utf8_lossy (take (i + 2) buffer)))

  module _ (fuel : ℕ) (buffer : List ℕ) (pending : List Event) where
    pub drain_events_done :
        find_sse_event_end buffer ≡ none
        → drain_events utf8_lossy (suc fuel) (buffer, pending) ≡ some (buffer, pending)
    unfolding drain_events
    drain_events_done clear = rw (clear, drain_events) refl

    pub drain_events_more :
        (i : ℕ)
        → find_sse_event_end buffer ≡ some i
        → drain_events utf8_lossy (suc fuel) (buffer, pending)
          ≡ drain_events utf8_lossy fuel (drop (i + 2) buffer, with_event buffer pending i)
    unfolding drain_events
    drain_events_more i found = rw (found, drain_events) refl

  pub drain_events-total :
      (fuel : ℕ) (buffer : List ℕ) (pending : List Event)
      → length buffer < fuel
      → (s : ScanState) × (drain_events utf8_lossy fuel (buffer, pending) ≡ some s)
        × (find_sse_event_end s.0 ≡ none)
  drain_events-total zero buffer pending h = absurd (omega arith)
  drain_events-total (suc fuel) buffer pending h = elim (Option-cases (find_sse_event_end buffer)) [
    | inl clear ↦ ((buffer, pending), drain_events_done fuel buffer pending clear, clear)
    | inr (i, found) ↦
        let fits = find_sse_event_end-le buffer i found in
        let (s, drained, clear) =
          drain_events-total fuel (drop (i + 2) buffer) (with_event buffer pending i)
            (omega (arith, length-drop (i + 2) buffer fits)) in
        (s, drain_events_more fuel buffer pending i found ∙ drained, clear)
  ]

  on_chunk-total :
      (s : ScanState) (c : Chunk)
      → (r : ScanState × Option (List Event)) × (on_chunk utf8_lossy s c ≡ some r)
  unfolding on_chunk
  on_chunk-total (buffer, pending) (bytes chunk) =
      let (s, drained, _) =
        drain_events-total (suc (length (buffer ++ chunk))) (buffer ++ chunk) pending
          (omega arith) in
      answer-total _ s drained
  on_chunk-total (buffer, pending) broken = (_, refl)

  module _ (s s' : ScanState) (c : Chunk) (cs : List Chunk) where
    pub scan_events_end :
        on_chunk utf8_lossy s c ≡ some (s', none) → scan_events utf8_lossy s (c ∷ cs) ≡ some []
    unfolding scan_events
    scan_events_end answered = rw (answered, scan_events) refl

    pub scan_events_more :
        (es later : List Event)
        → on_chunk utf8_lossy s c ≡ some (s', some es)
        → scan_events utf8_lossy s' cs ≡ some later
        → scan_events utf8_lossy s (c ∷ cs) ≡ some (es ++ later)
    unfolding scan_events
    scan_events_more es later answered scanned = rw (answered, scan_events) (rw scanned refl)

    scan_events_step :
        (o : Option (List Event))
        → on_chunk utf8_lossy s c ≡ some (s', o)
        → (later : List Event) × (scan_events utf8_lossy s' cs ≡ some later)
        → (es : List Event) × (scan_events utf8_lossy s (c ∷ cs) ≡ some es)
    scan_events_step none answered rest = ([], scan_events_end answered)
    scan_events_step (some es) answered (later, scanned) =
        (es ++ later, scan_events_more es later answered scanned)

  -- The scan of a stream never runs out of fuel: every list of chunks yields a list of events.
  pub scan_events-total :
      (cs : List Chunk) (s : ScanState)
      → (es : List Event) × (scan_events utf8_lossy s cs ≡ some es)
  unfolding scan_events
  scan_events-total [] s = ([], refl)
  scan_events-total (c ∷ cs) s =
      let ((s', o), answered) = on_chunk-total s c in
      scan_events_step s s' c cs o answered (scan_events-total cs s')

  -- A chunk that completes no event ends the stream, whatever comes after it.
  pub scan_events-cut :
      (buffer chunk : List ℕ) (cs : List Chunk)
      → find_sse_event_end (buffer ++ chunk) ≡ none
      → scan_events utf8_lossy (buffer, []) (bytes chunk ∷ cs) ≡ some []
  unfolding on_chunk
  scan_events-cut buffer chunk cs clear =
      scan_events_end (buffer, []) (buffer ++ chunk, []) (bytes chunk) cs
        (ap answer (drain_events_done (length (buffer ++ chunk)) (buffer ++ chunk) [] clear))
