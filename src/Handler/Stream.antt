-- ===== src/Handler/Stream.antt =====
-- How `forward_streaming` of src/service/handler.rs passes a stream of server-sent events on: the
-- scan that cuts the chunks into events, and the translation of each event. The texts of serde_json
-- and of the standard library's UTF-8 decoder are parameters.
use rapid_gate.Base.{
  ℕ, zero, suc, ◌+◌, true, Option, none, some, List, [], ◌∷◌, ◌++◌, take, drop, length, Text, codes,
  text_eq, if◌then◌else◌,
}
use rapid_gate.Error.{Result, ok, err}
use rapid_gate.Json.{Value, null}
use rapid_gate.Handler.Sse.{find_sse_event_end, parse_sse_data}
use rapid_gate.Providers.Types.{ProviderKind}
use rapid_gate.Providers.Factory.{transform_response}

-- what the upstream's stream yields: bytes, or an error of the connection
pub data Chunk : Type 0 where
  bytes : List ℕ → Chunk
  broken : Chunk

-- an event that was cut out, or the error
pub data Event : Type 0 where
  event : Text → Event
  io_error : Event

-- `buffer` and `pending`
abbrev pub ScanState : Type 0
ScanState = List ℕ × List Event

-- what the body of the response yields: bytes, or an error that breaks the response off
pub data Piece : Type 0 where
  piece : Text → Piece
  failure : Piece

-- what the closure of the scan answers: the items of this chunk, or the end of the stream
abbrev pub answer : Option ScanState → Option (ScanState × Option (List Event))
answer none = none
answer (some (buffer, [])) = some ((buffer, []), none)
answer (some (buffer, e ∷ es)) = some ((buffer, []), some (e ∷ es))

module _ (utf8_lossy : List ℕ → Text) where
  -- an event that has data is pending
  abbrev pub push_event : List Event → Option Text → List Event
  push_event pending none = pending
  push_event pending (some text) = pending ++ (event text ∷ [])

  -- the loop `while let Some(pos)`; `none` where the fuel runs out
  unfoldable pub drain_events : ℕ → ScanState → Option ScanState
  drain_events zero s = none
  drain_events (suc fuel) (buffer, pending) = elim (find_sse_event_end buffer) [
    | none ↦ some (buffer, pending)
    | some pos ↦ drain_events fuel (
      drop (pos + 2) buffer,
      push_event pending (parse_sse_data (utf8_lossy (take (pos + 2) buffer))),
    )
  ]

  unfoldable pub on_chunk : ScanState → Chunk → Option (ScanState × Option (List Event))
  on_chunk (buffer, pending) (bytes chunk) =
      answer (drain_events (suc (length (buffer ++ chunk))) (buffer ++ chunk, pending))
  on_chunk (buffer, pending) broken = some ((buffer, []), some (pending ++ (io_error ∷ [])))

  -- `scan` and `flat_map`: the stream ends where the closure answers `None`.
  unfoldable pub scan_events : ScanState → List Chunk → Option (List Event)
  scan_events s [] = some []
  scan_events s (c ∷ cs) = elim (on_chunk s c) [
    | none ↦ none
    | some (s', none) ↦ some []
    | some (s', some es) ↦ elim (scan_events s' cs) [
      | none ↦ none
      | some later ↦ some (es ++ later)
    ]
  ]

-- `serde_json::from_str`, `to_vec`, `from_slice` and the `Display` of a value
module _ (from_str : Text → Option Value) (to_vec : Value → List ℕ)
    (from_slice : List ℕ → Option Value) (print : Value → Text) where
  abbrev pub sse_line : Text → Text
  sse_line text = codes "data: " ++ (text ++ (10 ∷ 10 ∷ []))

  -- an event that is not needed is passed on as no bytes
  abbrev pub print_event : Result Value → Piece
  print_event (err e) = failure
  print_event (ok null) = piece []
  print_event (ok v) = piece (sse_line (print v))

  unfoldable pub transform_event : ProviderKind → ℕ → Event → Piece
  unfolding text_eq
  transform_event kind status io_error = failure
  transform_event kind status (event text) =
      if text_eq text (codes "[DONE]") then piece (sse_line text) else elim (from_str text) [
        | none ↦ failure
        | some json ↦ print_event (
            transform_response from_slice kind
              (record { body = to_vec json; status = status; is_stream = true }))
      ]
