-- ===== src/Providers/Content.antt =====
-- What the client reads in an answer that a provider's adapter translates.
use rapid_gate.Base.{
  ℕ, true, false, if◌then◌else◌, Option-cases, Bool-cases, inl, inr, List, Text, codes, text_eq,
  text_eq_iff, ◌∙◌, Option, none, some, [], ◌≡◌, refl,
}
use rapid_gate.Base.Maybe.{◌>>=◌, bind-some}
use rapid_gate.Error.{CoreError, Result, ok, err}
use rapid_gate.Base.{ap}
use rapid_gate.Json.{Value, lookup, null, get, as_str, as_array, first, unwrap_or}
use rapid_gate.Providers.Types.{ProviderKind, openai, anthropic, gemini, local, ProviderResponse}
use rapid_gate.Providers.Factory.{transform_response}
use rapid_gate.Providers.Anthropic
use rapid_gate.Providers.Gemini
use rapid_gate.Providers.Compatible
use rapid_gate.Providers.Pieces.{
  pieces, event_pieces, IsRead, equal-IsRead, lead, lead-bind, lead-first, lead-delta,
}

-- what a client of OpenAI's protocol reads: the first choice, its message or delta, the content
abbrev pub choice_text : Text → Value → Option Text
choice_text part answer = do
  choices ← get (codes "choices") answer
  all ← as_array choices
  choice ← first all
  message ← get part choice
  content ← get (codes "content") message
  as_str content

-- the text that an adapter looks up in a full answer: that of its first piece
abbrev native_text : ProviderKind → Value → Option Text
native_text anthropic resp = do
  content ← get (codes "content") resp
  blocks ← as_array content
  block ← first blocks
  text ← get (codes "text") block
  as_str text
native_text gemini resp = do
  candidates ← get (codes "candidates") resp
  all ← as_array candidates
  candidate ← first all
  content ← get (codes "content") candidate
  parts ← get (codes "parts") content
  list ← as_array parts
  part ← first list
  text ← get (codes "text") part
  as_str text
native_text _ resp = choice_text (codes "message") resp

native_text-anthropic :
    (v : Value) → unwrap_or [] (native_text anthropic v) ≡ lead (pieces anthropic v)
native_text-anthropic v =
    lead-bind (get (codes "content") v) _ _ (λ content. lead-first (as_array content))

native_text-gemini : (v : Value) → unwrap_or [] (native_text gemini v) ≡ lead (pieces gemini v)
native_text-gemini v = lead-bind (get (codes "candidates") v) _ _ (λ candidates.
    lead-bind (as_array candidates) _ _ (λ all. lead-bind (first all) _ _ (λ candidate.
      lead-bind (get (codes "content") candidate) _ _ (λ content.
        lead-bind (get (codes "parts") content) _ _ (λ parts. lead-first (as_array parts))))))

choice_text-anthropic :
    (v : Value)
    → choice_text (codes "message") (Anthropic.full_response v)
      ≡ some (unwrap_or [] (native_text anthropic v))
unfolding Anthropic.full_response Anthropic.response_text get as_array as_str text_eq lookup
choice_text-anthropic v = refl

choice_text-gemini :
    (v : Value)
    → choice_text (codes "message") (Gemini.full_response v)
      ≡ some (unwrap_or [] (native_text gemini v))
unfolding Gemini.full_response Gemini.candidate_text get as_array as_str text_eq lookup
choice_text-gemini v = refl

-- what a client reads of the result of an adapter
abbrev pub read_text : Text → Result Value → Option Text
read_text part (err e) = none
read_text part (ok answer) = choice_text part answer

-- an answer that came whole, and one event of a stream
abbrev pub whole : List ℕ → ℕ → ProviderResponse
whole body status = record { body = body; status = status; is_stream = false }

abbrev pub event : List ℕ → ℕ → ProviderResponse
event body status = record { body = body; status = status; is_stream = true }

-- what becomes of an answer that may not have parsed
abbrev pub Answered : ProviderKind → Option Value → Result Value → Type 0
Answered kind none r = (e : CoreError) × (r ≡ err e)
Answered anthropic (some v) r =
    (t : Text) × (read_text (codes "message") r ≡ some t) × IsRead (pieces anthropic v) t
Answered gemini (some v) r =
    (t : Text) × (read_text (codes "message") r ≡ some t) × IsRead (pieces gemini v) t
Answered _ (some v) r = r ≡ ok v

module _ (from_slice : List ℕ → Option Value) where
  -- An answer of OpenAI or of a local model that parses is passed on as it is. Of one of Anthropic or
  -- Gemini the client reads a text that the answer's text begins with: that of its first block or
  -- part, behind which the text of all others is missing. It is the whole text of an answer with one
  -- block or part at most. An answer that does not parse is an error.
  pub transform_response-text :
      (kind : ProviderKind) (body : List ℕ) (status : ℕ)
      → Answered kind (from_slice body) (transform_response from_slice kind (whole body status))
  unfolding transform_response Anthropic.transform_response Gemini.transform_response
      Compatible.openai_response Compatible.local_response Compatible.transform_response
  transform_response-text anthropic body status = elim (Option-cases (from_slice body)) [
    | inl bad ↦ rw bad (_, refl)
    | inr (v, parsed) ↦
        rw parsed (
          _,
          choice_text-anthropic v,
          equal-IsRead (pieces anthropic v) _ (native_text-anthropic v),
        )
  ]
  transform_response-text gemini body status = elim (Option-cases (from_slice body)) [
    | inl bad ↦ rw bad (_, refl)
    | inr (v, parsed) ↦
        rw parsed (_, choice_text-gemini v, equal-IsRead (pieces gemini v) _ (native_text-gemini v))
  ]
  transform_response-text openai body status = elim (Option-cases (from_slice body)) [
    | inl bad ↦ rw bad (_, refl)
    | inr (v, parsed) ↦ rw parsed refl
  ]
  transform_response-text local body status = elim (Option-cases (from_slice body)) [
    | inl bad ↦ rw bad (_, refl)
    | inr (v, parsed) ↦ rw parsed refl
  ]

-- the text that an adapter looks up in an event
abbrev native_delta : ProviderKind → Value → Option Text
native_delta anthropic v = do
  kind ← get (codes "type") v
  name ← as_str kind
  delta ← (if text_eq name (codes "content_block_delta") then get (codes "delta") v else none)
  text ← get (codes "text") delta
  as_str text
native_delta gemini v = native_text gemini v
native_delta _ v = choice_text (codes "delta") v

-- what a client reads of an event that may have been dropped; a dropped event reads as no text
abbrev delta_text : Option Value → Option Text
delta_text translated = choice_text (codes "delta") (unwrap_or null translated)

delta_text-bind {ℓ} :
    {A : Type ℓ} (m : Option A) (f : A → Option Value) (g : A → Option Text)
    → ((a : A) → delta_text (f a) ≡ g a)
    → delta_text (m >>= f) ≡ (m >>= g)
unfolding get
delta_text-bind none f g h = refl
delta_text-bind (some a) f g h = h a

delta_text-content_block_delta :
    (v : Value)
    → delta_text (Anthropic.content_block_delta v)
      ≡ (get (codes "delta") v >>= λ delta. get (codes "text") delta >>= λ text. as_str text)
unfolding Anthropic.content_block_delta get as_array as_str text_eq lookup
delta_text-content_block_delta v = delta_text-bind (get (codes "delta") v) _ _ (λ delta.
    delta_text-bind (get (codes "text") delta) _ _
      (λ text. delta_text-bind (as_str text) _ (λ s. some s) (λ s. refl) ∙ bind-some (as_str text)))

delta_text-translate_event :
    (name : Text) (v : Value)
    → delta_text (Anthropic.translate_event name v) ≡ (
        (if text_eq name (codes "content_block_delta") then get (codes "delta") v else none)
        >>= λ delta. get (codes "text") delta >>= λ text. as_str text)
unfolding Anthropic.translate_event
delta_text-translate_event name v = elim (Bool-cases (text_eq name (codes "message_start"))) [
  | inl start ↦
      rw ((text_eq_iff name (codes "message_start")).0 start)
        (unfold Anthropic.message_start text_eq get as_array as_str lookup in refl)
  | inr later ↦ elim (Bool-cases (text_eq name (codes "content_block_delta"))) [
    | inl delta ↦ rw (later, delta) (delta_text-content_block_delta v)
    | inr other ↦ elim (Bool-cases (text_eq name (codes "message_stop"))) [
      | inl stop ↦ rw (later, other, stop) (unfold text_eq get as_array as_str lookup in refl)
      | inr unknown ↦ rw (later, other, unknown) (unfold get in refl)
    ]
  ]
]

choice_text-anthropic_delta :
    (v : Value) → delta_text (Anthropic.transform_streaming_chunk v) ≡ native_delta anthropic v
unfolding Anthropic.transform_streaming_chunk
choice_text-anthropic_delta v =
    delta_text-bind (get (codes "type") v) _ _
      (λ kind. delta_text-bind (as_str kind) _ _ (λ name. delta_text-translate_event name v))

delta_text-delta_chunk : (s : Text) → delta_text (some (Gemini.delta_chunk s)) ≡ some s
unfolding Gemini.delta_chunk get as_array as_str text_eq lookup
delta_text-delta_chunk s = refl

choice_text-gemini_delta :
    (v : Value) → delta_text (Gemini.transform_streaming_chunk v) ≡ Gemini.candidate_text v
unfolding Gemini.transform_streaming_chunk
choice_text-gemini_delta v =
    delta_text-bind (Gemini.candidate_text v) _ (λ s. some s) delta_text-delta_chunk
    ∙ bind-some (Gemini.candidate_text v)

native_delta-anthropic :
    (v : Value) → unwrap_or [] (native_delta anthropic v) ≡ lead (event_pieces anthropic v)
native_delta-anthropic v = lead-bind (get (codes "type") v) _ _ (λ kind.
    lead-bind (as_str kind) _ _ (λ name.
      lead-delta
        (if text_eq name (codes "content_block_delta") then get (codes "delta") v else none)))

first_part : (v : Value) → unwrap_or [] (Gemini.candidate_text v) ≡ lead (event_pieces gemini v)
unfolding Gemini.candidate_text
first_part v = native_text-gemini v

-- what becomes of an event that may not have parsed
abbrev pub Streamed : ProviderKind → Option Value → Result Value → Type 0
Streamed anthropic none r = (e : CoreError) × (r ≡ err e)
Streamed gemini none r = (e : CoreError) × (r ≡ err e)
Streamed _ none r = r ≡ ok null
Streamed anthropic (some v) r =
    IsRead (event_pieces anthropic v) (unwrap_or [] (read_text (codes "delta") r))
Streamed gemini (some v) r =
    IsRead (event_pieces gemini v) (unwrap_or [] (read_text (codes "delta") r))
Streamed _ (some v) r = r ≡ ok v

module _ (from_slice : List ℕ → Option Value) where
  -- An event of OpenAI or of a local model that parses is passed on as it is. Of one of Anthropic the
  -- client reads the text of its delta, if it is of the type that has one, and of one of Gemini the
  -- text of its first part, behind which the text of all other parts is missing; it is the whole text
  -- of an event with one part at most. An event that does not parse is an error for these two, and
  -- null, which is dropped, for the others.
  pub transform_response-delta :
      (kind : ProviderKind) (body : List ℕ) (status : ℕ)
      → Streamed kind (from_slice body) (transform_response from_slice kind (event body status))
  unfolding transform_response Anthropic.transform_response Gemini.transform_response
      Compatible.openai_response Compatible.local_response Compatible.transform_response
  transform_response-delta anthropic body status = elim (Option-cases (from_slice body)) [
    | inl bad ↦ rw bad (_, refl)
    | inr (v, parsed) ↦ rw parsed (
        equal-IsRead (event_pieces anthropic v) _
          (ap (unwrap_or []) (choice_text-anthropic_delta v) ∙ native_delta-anthropic v))
  ]
  transform_response-delta gemini body status = elim (Option-cases (from_slice body)) [
    | inl bad ↦ rw bad (_, refl)
    | inr (v, parsed) ↦ rw parsed (
        equal-IsRead (event_pieces gemini v) _
          (ap (unwrap_or []) (choice_text-gemini_delta v) ∙ first_part v))
  ]
  transform_response-delta openai body status = elim (Option-cases (from_slice body)) [
    | inl bad ↦ rw bad refl
    | inr (v, parsed) ↦ rw parsed refl
  ]
  transform_response-delta local body status = elim (Option-cases (from_slice body)) [
    | inl bad ↦ rw bad refl
    | inr (v, parsed) ↦ rw parsed refl
  ]
