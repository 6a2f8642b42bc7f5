-- ===== src/Providers/Gemini.antt =====
-- The adapter to generateContent: src/service/providers/gemini.rs.
use rapid_gate.Base.{
  ℕ, ◌+◌, ◌%◌, ◌^◌, ◌==◌, ◌++◌, Text, codes, text_eq, trim_end_by, Option, none, some, List, [],
  ◌∷◌, map, if◌then◌else◌,
}
use rapid_gate.Base.Maybe.{◌>>=◌}
use rapid_gate.Error.{Result, ok, err, internal}
use rapid_gate.Json.{
  Value, Fields, null, string, object, end, field, get, insert, as_str, as_u64, as_array, first,
  json_object, json_array, json_number, unwrap_or,
}
use rapid_gate.Providers.Types.{ProviderRequest, ProviderResponse}

abbrev pub api_path : Text
api_path = codes "/v1beta/models/gemini-pro:generateContent"

-- the provider's own `build_url`
unfoldable pub build_url : ProviderRequest → Text
unfolding trim_end_by
build_url req =
    trim_end_by (λ c. c == b'/') req.base_url
    ++ (codes "/v1beta/models/" ++ (req.model ++ codes ":generateContent"))

-- one turn of the loop over the messages
unfoldable pub to_content : Value → Value
unfolding get as_str text_eq
to_content msg =
    let role = unwrap_or (codes "user") (do r ← get (codes "role") msg; as_str r) in
    let content = unwrap_or [] (do c ← get (codes "content") msg; as_str c) in
    let gemini_role = if text_eq role (codes "assistant") then codes "model" else codes "user" in
    json_object (
      (codes "role", string gemini_role)
      ∷ (codes "parts", json_array (json_object ((codes "text", string content) ∷ []) ∷ []))
      ∷ [])

-- one option of the request, copied under Gemini's name if it is there
unfoldable pub copy_option : Text → Text → Value → Fields → Fields
unfolding get insert
copy_option from to body config = elim (get from body) [
  | none ↦ config
  | some v ↦ insert to v config
]

unfoldable pub generation_config : Value → Fields
unfolding copy_option text_eq
generation_config body = copy_option (codes "max_tokens") (codes "maxOutputTokens") body (
    copy_option (codes "top_p") (codes "topP") body
      (copy_option (codes "temperature") (codes "temperature") body end))

-- the configuration is only sent if it has an entry
abbrev pub with_config : Fields → Fields → Fields
with_config end req = req
with_config (field k v fs) req = insert (codes "generationConfig") (object (field k v fs)) req

unfoldable pub request_of : Fields → Option (List Value) → Result Value
unfolding insert text_eq
request_of config none = err (internal (codes "missing messages field"))
request_of config (some messages) =
    let contents = json_array (map to_content messages) in
    ok (object (with_config config (field (codes "contents") contents end)))

unfoldable pub transform_request : ProviderRequest → Result Value
unfolding request_of
transform_request req =
    request_of (generation_config req.body)
      (do messages ← get (codes "messages") req.body; as_array messages)

-- the text of the first part of the first candidate
unfoldable pub candidate_text : Value → Option Text
unfolding get as_array as_str
candidate_text resp = do
  candidates ← get (codes "candidates") resp
  all ← as_array candidates
  candidate ← first all
  content ← get (codes "content") candidate
  parts ← get (codes "parts") content
  list ← as_array parts
  part ← first list
  text ← get (codes "text") part
  as_str text

unfoldable pub tokens : Text → Option Value → Option ℕ
unfolding get as_u64
tokens name raw = do usage ← raw; count ← get name usage; as_u64 count

-- `prompt + completion` on u64 wraps around in a release build.
unfoldable pub map_gemini_usage : Option Value → Value
unfolding tokens
map_gemini_usage raw =
    let prompt = unwrap_or 0 (tokens (codes "promptTokenCount") raw) in
    let completion = unwrap_or 0 (tokens (codes "candidatesTokenCount") raw) in
    let total = unwrap_or ((prompt + completion) % 2 ^ 64) (tokens (codes "totalTokenCount") raw) in
    json_object (
      (codes "prompt_tokens", json_number prompt)
      ∷ (codes "completion_tokens", json_number completion)
      ∷ (codes "total_tokens", json_number total)
      ∷ [])

unfoldable pub full_response : Value → Value
full_response resp = json_object (
    (codes "id", string (codes "gemini-resp"))
    ∷ (codes "object", string (codes "chat.completion"))
    ∷ (codes "created", json_number 0)
    ∷ (codes "model", string (codes "gemini"))
    ∷ (
      codes "choices",
      json_array (
          json_object (
            (codes "index", json_number 0)
            ∷ (
              codes "message",
              json_object (
                  (codes "role", string (codes "assistant"))
                  ∷ (codes "content", string (unwrap_or [] (candidate_text resp)))
                  ∷ []),
            )
            ∷ (codes "finish_reason", string (codes "stop"))
            ∷ [])
          ∷ []),
    )
    ∷ (codes "usage", map_gemini_usage (get (codes "usageMetadata") resp))
    ∷ [])

unfoldable pub delta_chunk : Text → Value
delta_chunk text = json_object (
    (codes "id", string [])
    ∷ (codes "object", string (codes "chat.completion.chunk"))
    ∷ (codes "created", json_number 0)
    ∷ (codes "model", string (codes "gemini"))
    ∷ (
      codes "choices",
      json_array (
          json_object (
            (codes "index", json_number 0)
            ∷ (codes "delta", json_object ((codes "content", string text) ∷ []))
            ∷ (codes "finish_reason", null)
            ∷ [])
          ∷ []),
    )
    ∷ [])

unfoldable pub transform_streaming_chunk : Value → Option Value
transform_streaming_chunk chunk = do text ← candidate_text chunk; some (delta_chunk text)

unfoldable pub transform_response : (List ℕ → Option Value) → ProviderResponse → Result Value
transform_response from_slice resp =
    if resp.is_stream
    then elim (from_slice resp.body) [
      | none ↦ err (internal (codes "failed to parse Gemini SSE chunk"))
      | some chunk ↦ ok (unwrap_or null (transform_streaming_chunk chunk))
    ]
    else elim (from_slice resp.body) [
      | none ↦ err (internal (codes "failed to parse Gemini response"))
      | some full ↦ ok (full_response full)
    ]
