-- ===== src/Handler/Whole.antt =====
-- Events that arrive whole: a stream whose chunks each hold one or more complete events is cut into
-- exactly these events, in order.
use rapid_gate.Base.{
  ℕ, ◌<◌, Bool, false, List, [], ◌∷◌, ◌++◌, map, Text, codes, Free, All, ◌≡◌, arith, trim_start_by,
  trim_end_by, is_whitespace, is_empty,
}
use rapid_gate.Handler.Sse.{newline, carriage_return}
use rapid_gate.Handler.Stream.{Event, event}

-- the bytes of an event with one line of data, and of several such events
abbrev pub line : Text → Text
line x = codes "data: " ++ x

abbrev pub render : Text → List ℕ
render x = line x ++ (newline ∷ newline ∷ [])

abbrev pub render_all : List Text → List ℕ
render_all [] = []
render_all (x ∷ xs) = line x ++ (newline ∷ newline ∷ render_all xs)

-- data that is one line of ASCII, not empty, and neither begins nor ends with a space
pub record IsData (x : Text) : Type 0 where
  pub nonempty : is_empty x ≡ false
  pub ascii : All (λ c. c < 128) x
  pub no_newline : Free newline x
  pub no_return : Free carriage_return x
  pub starts : trim_start_by is_whitespace x ≡ x
  pub ends : trim_end_by is_whitespace x ≡ x

-- the events of a list of groups, each with at least one event
abbrev pub all_events : List (Text × List Text) → List Event
all_events [] = []
all_events ((x, xs) ∷ groups) = map event (x ∷ xs) ++ all_events groups

trim_end_cons :
    (p : ℕ → Bool) (c : ℕ) (s : Text)
    → trim_end_by p s ≡ s
    → is_empty s ≡ false
    → trim_end_by p (c ∷ s) ≡ c ∷ s
unfolding trim_end_by
trim_end_cons p c s e n = ground arith
