-- ===== src/Providers/Tests.antt =====
-- The unit tests of src/service/providers/ and src/core/provider/mod.rs. The parser here reads a
-- single text: the number of a sample.
use rapid_gate.Base.{
  ℕ, ◌==◌, false, Text, codes, text_eq, Option, none, some, List, [], ◌∷◌, map, ◌≡◌, ◌↔◌, refl,
  if◌then◌else◌,
}
use rapid_gate.Base.Maybe.{◌>>=◌}
use rapid_gate.Json.{
  Value, string, json_object, json_array, json_number, get, as_array, lookup, as_str,
}
use rapid_gate.Providers.Types.{openai, anthropic, gemini, ProviderRequest}
use rapid_gate.Providers.Factory.{transform_request, transform_response, build_url}
use rapid_gate.Providers.Content.{
  whole, event, read_text, Answered, Streamed, transform_response-text, transform_response-delta,
}
use rapid_gate.Providers.Usage.{count}
use rapid_gate.Providers.Requests.{
  sent, IsOther, Turn, system, assistant, AllSay, gemini_content, transform_request-panics_iff,
  transform_request-turns,
}
use rapid_gate.Providers.Anthropic

abbrev message_of : Text → Text → Value
message_of role content =
    json_object ((codes "role", string role) ∷ (codes "content", string content) ∷ [])

abbrev chat : ProviderRequest
chat = record {
  body = json_object (
      (codes "model", string (codes "claude-3"))
      ∷ (
        codes "messages",
        json_array (
            message_of (codes "system") (codes "sys")
            ∷ message_of (codes "assistant") (codes "hi")
            ∷ []),
      )
      ∷ []);
  base_url = codes "http://x/";
  api_key = codes "k";
  model = codes "claude-3";
  stream = false;
  operation = codes "chat";
}

abbrev usage : Value
usage =
    json_object
      ((codes "input_tokens", json_number 10) ∷ (codes "output_tokens", json_number 5) ∷ [])

abbrev answer : Value
answer = json_object (
    (codes "id", string (codes "m1"))
    ∷ (
      codes "content",
      json_array (
          json_object
            ((codes "type", string (codes "text")) ∷ (codes "text", string (codes "hello")) ∷ [])
          ∷ []),
    )
    ∷ (codes "usage", usage)
    ∷ [])

abbrev delta : Value
delta = json_object (
    (codes "type", string (codes "content_block_delta"))
    ∷ (codes "delta", json_object ((codes "text", string (codes "xyz")) ∷ []))
    ∷ [])

abbrev parse : List ℕ → Option Value
parse [] = none
parse (n ∷ ns) = if n == 1 then some answer else some delta

transform_response-text_example :
    Answered anthropic (parse (1 ∷ [])) (transform_response parse anthropic (whole (1 ∷ []) 200))
transform_response-text_example = transform_response-text parse anthropic (1 ∷ []) 200

transform_response-delta_example :
    Streamed anthropic (parse (2 ∷ [])) (transform_response parse anthropic (event (2 ∷ []) 200))
transform_response-delta_example = transform_response-delta parse anthropic (2 ∷ []) 200

-- two blocks of text, of which the client reads one
abbrev two_blocks : Value
two_blocks = json_object (
    (
      codes "content",
      json_array (
          json_object ((codes "text", string (codes "one")) ∷ [])
          ∷ json_object ((codes "text", string (codes "two")) ∷ [])
          ∷ []),
    )
    ∷ [])

text_lost :
    read_text
      (codes "message")
      (transform_response (λ body. some two_blocks) anthropic (whole [] 200))
    ≡ some (codes "one")
unfolding transform_response Anthropic.transform_response Anthropic.full_response
    Anthropic.response_text get as_array as_str lookup text_eq
text_lost = refl

stream_chunk_text :
    read_text (codes "delta") (transform_response parse anthropic (event (2 ∷ []) 200))
    ≡ some (codes "xyz")
unfolding transform_response Anthropic.transform_response get Anthropic.transform_streaming_chunk
    lookup Anthropic.content_block_delta as_array
stream_chunk_text = refl

non_stream_usage_mapped :
    count (codes "total_tokens") (Anthropic.map_anthropic_usage (some usage)) ≡ some 15
unfolding Anthropic.map_anthropic_usage lookup text_eq
non_stream_usage_mapped = refl

abbrev array_request : ProviderRequest
array_request = record chat { body = json_array [] }

transform_request-panics_iff_example :
    (transform_request anthropic array_request ≡ none)
    ↔ ((anthropic ≡ anthropic) × IsOther array_request.body)
transform_request-panics_iff_example = transform_request-panics_iff anthropic array_request

abbrev turns : List Turn
turns =
    record { role = system; text = codes "sys" }
    ∷ record { role = assistant; text = codes "hi" }
    ∷ []

abbrev messages : List Value
messages =
    message_of (codes "system") (codes "sys") ∷ message_of (codes "assistant") (codes "hi") ∷ []

messages_found : (get (codes "messages") chat.body >>= as_array) ≡ some messages
unfolding get as_array lookup text_eq
messages_found = refl

messages-AllSay : AllSay messages turns
unfolding get lookup text_eq
messages-AllSay = ((refl, refl), ((refl, refl), tt))

transform_request-turns_example :
    sent (codes "contents") (transform_request gemini chat)
    ≡ some (json_array (map gemini_content turns))
transform_request-turns_example =
    transform_request-turns chat messages turns messages_found messages-AllSay

chat_url : build_url openai chat ≡ codes "http://x/v1/chat/completions"
unfolding build_url
chat_url = refl

gemini_url : build_url gemini chat ≡ codes "http://x/v1beta/models/claude-3:generateContent"
unfolding build_url
gemini_url = refl
