-- ===== src/Handler/Sse.antt =====
-- The helpers of src/service/handler.rs that read server-sent events.
use rapid_gate.Base.{
  ℕ, suc, ◌==◌, Bool, ◌||◌, Option, none, some, List, [], ◌∷◌, Text, codes, is_empty, starts_with,
  strip_prefix, split, join, trim, if◌then◌else◌,
}

abbrev pub newline : ℕ
newline = 10

abbrev pub carriage_return : ℕ
carriage_return = 13

-- an event ends where two line ends stand
abbrev pub is_event_end : List ℕ → Bool
is_event_end bytes =
    starts_with (newline ∷ newline ∷ []) bytes
    || starts_with (carriage_return ∷ newline ∷ carriage_return ∷ newline ∷ []) bytes

abbrev pub further : Option ℕ → Option ℕ
further none = none
further (some i) = some (suc i)

-- The last index is not tried in the source; no line end fits there.
unfoldable pub find_sse_event_end : List ℕ → Option ℕ
unfolding starts_with
find_sse_event_end [] = none
find_sse_event_end (b ∷ bytes) =
    let rest = find_sse_event_end bytes in if is_event_end (b ∷ bytes) then some 0 else further rest

-- `str::lines`: without the line ends, and without an empty last line
unfoldable pub strip_return : Text → Text
strip_return [] = []
strip_return (c ∷ []) = if c == carriage_return then [] else c ∷ []
strip_return (c ∷ d ∷ s) = c ∷ strip_return (d ∷ s)

abbrev pub lines_of : List Text → List Text
lines_of [] = []
lines_of (x ∷ []) = if is_empty x then [] else x ∷ []
lines_of (x ∷ y ∷ ys) = strip_return x ∷ lines_of (y ∷ ys)

-- the loop over the lines
unfoldable pub data_lines : List Text → List Text
unfolding strip_prefix trim is_empty
data_lines [] = []
data_lines (l ∷ ls) =
    let rest = data_lines ls in
    if is_empty (trim l) then rest else elim (strip_prefix (codes "data:") (trim l)) [
      | some value ↦ trim value ∷ rest
      | none ↦ rest
    ]

unfoldable pub parse_sse_data : Text → Option Text
unfolding data_lines split join strip_return
parse_sse_data event = elim (data_lines (lines_of (split newline event))) [
  | [] ↦ none
  | d ∷ ds ↦ some (join newline (d ∷ ds))
]
