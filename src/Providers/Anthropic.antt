-- ===== src/Providers/Anthropic.antt =====
-- The adapter to the Messages API: src/service/providers/anthropic.rs. `from_slice` is the JSON
-- parser of serde_json, `none` for a text that it rejects.
use rapid_gate.Base.{
  ℕ, ◌+◌, ◌%◌, ◌^◌, Text, codes, text_eq, Option, none, some, List, [], ◌∷◌, if◌then◌else◌,
}
use rapid_gate.Base.Maybe.{◌>>=◌}
use rapid_gate.Error.{Result, ok, err, internal}
use rapid_gate.Json.{
  Value, null, string, get, as_str, as_u64, as_array, first, json_object, json_array, json_number,
  index_set, unwrap_or,
}
use rapid_gate.Providers.Types.{ProviderRequest, ProviderResponse}

abbrev pub api_path : Text
api_path = codes "/v1/messages"

-- the body with its limit of tokens, `none` where the index into it panics
unfoldable pub with_limit : Value → Option Value
unfolding get index_set text_eq
with_limit body = elim (get (codes "max_tokens") body) [
  | some limit ↦ some body
  | none ↦ index_set (codes "max_tokens") (json_number 4096) body
]

unfoldable pub transform_request : ProviderRequest → Option (Result Value)
transform_request req = with_limit req.body >>= λ body. some (ok body)

-- a token count, 0 where it is missing
unfoldable pub tokens : Text → Option Value → ℕ
unfolding get as_u64
tokens name raw = unwrap_or 0 (do usage ← raw; count ← get name usage; as_u64 count)

-- `input + output` on u64 wraps around in a release build.
unfoldable pub map_anthropic_usage : Option Value → Value
unfolding tokens
map_anthropic_usage raw =
    let input = tokens (codes "input_tokens") raw in
    let output = tokens (codes "output_tokens") raw in
    json_object (
      (codes "prompt_tokens", json_number input)
      ∷ (codes "completion_tokens", json_number output)
      ∷ (codes "total_tokens", json_number ((input + output) % 2 ^ 64))
      ∷ [])

-- the text of the first block of the answer, or the empty text
unfoldable pub response_text : Value → Text
unfolding get as_array as_str
response_text resp = unwrap_or [] (do
  content ← get (codes "content") resp
  blocks ← as_array content
  block ← first blocks
  text ← get (codes "text") block
  as_str text)

-- `value.get(key).cloned().unwrap_or(otherwise)`
unfoldable pub get_or : Text → Value → Value → Value
unfolding get
get_or name otherwise v = unwrap_or otherwise (get name v)

unfoldable pub full_response : Value → Value
unfolding get_or
full_response resp = json_object (
    (codes "id", get_or (codes "id") (string []) resp)
    ∷ (codes "object", string (codes "chat.completion"))
    ∷ (codes "created", get_or (codes "created") (json_number 0) resp)
    ∷ (codes "model", get_or (codes "model") (string []) resp)
    ∷ (
      codes "choices",
      json_array (
          json_object (
            (codes "index", json_number 0)
            ∷ (
              codes "message",
              json_object (
                  (codes "role", string (codes "assistant"))
                  ∷ (codes "content", string (response_text resp))
                  ∷ []),
            )
            ∷ (codes "finish_reason", string (codes "stop"))
            ∷ [])
          ∷ []),
    )
    ∷ (codes "usage", map_anthropic_usage (get (codes "usage") resp))
    ∷ [])

abbrev pub stream_chunk : Value → Value → Value → Value → Value → Value
stream_chunk id created model delta finish_reason = json_object (
    (codes "id", id)
    ∷ (codes "object", string (codes "chat.completion.chunk"))
    ∷ (codes "created", created)
    ∷ (codes "model", model)
    ∷ (
      codes "choices",
      json_array (
          json_object (
            (codes "index", json_number 0)
            ∷ (codes "delta", delta)
            ∷ (codes "finish_reason", finish_reason)
            ∷ [])
          ∷ []),
    )
    ∷ [])

-- a field of the message that a stream starts with
unfoldable pub message_or : Text → Value → Value → Value
unfolding get
message_or name otherwise chunk =
    unwrap_or otherwise (do message ← get (codes "message") chunk; get name message)

unfoldable pub message_start : Value → Value
unfolding message_or
message_start chunk =
    stream_chunk (message_or (codes "id") (string []) chunk)
      (message_or (codes "created") (json_number 0) chunk)
      (message_or (codes "model") (string []) chunk)
      (json_object ((codes "role", string (codes "assistant")) ∷ [])) null

unfoldable pub content_block_delta : Value → Option Value
unfolding get as_str
content_block_delta chunk = do
  delta ← get (codes "delta") chunk
  text ← get (codes "text") delta
  s ← as_str text
  some (
      stream_chunk (string []) (json_number 0) (string [])
        (json_object ((codes "content", string s) ∷ [])) null)

abbrev pub message_stop : Value
message_stop =
    stream_chunk (string []) (json_number 0) (string []) (json_object []) (string (codes "stop"))

-- the arms for the types of events
unfoldable pub translate_event : Text → Value → Option Value
unfolding text_eq
translate_event event_type chunk =
    if text_eq event_type (codes "message_start")
    then some (message_start chunk)
    else if text_eq event_type (codes "content_block_delta")
    then content_block_delta chunk
    else if text_eq event_type (codes "message_stop")
    then some message_stop
    else none

unfoldable pub transform_streaming_chunk : Value → Option Value
unfolding get as_str translate_event
transform_streaming_chunk chunk = do
  kind ← get (codes "type") chunk
  event_type ← as_str kind
  translate_event event_type chunk

unfoldable pub transform_response : (List ℕ → Option Value) → ProviderResponse → Result Value
transform_response from_slice resp =
    if resp.is_stream
    then elim (from_slice resp.body) [
      | none ↦ err (internal (codes "failed to parse Anthropic SSE chunk"))
      | some chunk ↦ ok (unwrap_or null (transform_streaming_chunk chunk))
    ]
    else elim (from_slice resp.body) [
      | none ↦ err (internal (codes "failed to parse Anthropic response"))
      | some full ↦ ok (full_response full)
    ]
