-- ===== src/Providers/Options.antt =====
-- The options that the adapter of src/service/providers/gemini.rs sends.
use rapid_gate.Base.{
  Text, codes, text_eq, Option, none, some, List, map, ◌≡◌, refl, arith, Option-cases, inl, inr,
}
use rapid_gate.Base.Maybe.{◌>>=◌}
use rapid_gate.Json.{Value, Fields, end, field, lookup, insert, get, as_array, json_array}
use rapid_gate.Providers.Types.{gemini, ProviderRequest}
use rapid_gate.Providers.Factory.{transform_request}
use rapid_gate.Providers.Gemini
use rapid_gate.Providers.Requests.{sent}

lookup-generation_config :
    (body : Value)
    → (lookup (codes "temperature") (Gemini.generation_config body)
        ≡ get (codes "temperature") body)
      × (lookup (codes "topP") (Gemini.generation_config body) ≡ get (codes "top_p") body)
      × (lookup (codes "maxOutputTokens") (Gemini.generation_config body)
          ≡ get (codes "max_tokens") body)
unfolding Gemini.generation_config Gemini.copy_option text_eq lookup insert
lookup-generation_config body = elim (Option-cases (get (codes "temperature") body)) [
  | inl a ↦ elim (Option-cases (get (codes "top_p") body)) [
    | inl b ↦ ground arith
    | inr (p, b) ↦ ground arith
  ]
  | inr (t, a) ↦ elim (Option-cases (get (codes "top_p") body)) [
    | inl b ↦ ground arith
    | inr (p, b) ↦ ground arith
  ]
]

get-with_config :
    (config : Fields) (k : Text) (v : Value)
    → (lookup
          (codes "generationConfig")
          (Gemini.with_config config (field (codes "contents") v end))
        >>= get k)
      ≡ lookup k config
unfolding lookup insert text_eq get
get-with_config end k v = refl
get-with_config (field j w fs) k v = refl

-- an option in the configuration that the adapter to Gemini sends
abbrev pub sent_option : Text → ProviderRequest → Option Value
sent_option k req = sent (codes "generationConfig") (transform_request gemini req) >>= get k

get-request_of :
    (config : Fields) (found : Option (List Value)) (ms : List Value) (k : Text)
    → found ≡ some ms
    → (sent (codes "generationConfig") (some (Gemini.request_of config found)) >>= get k)
      ≡ lookup k config
unfolding Gemini.request_of get
get-request_of config none ms k h = cc
get-request_of config (some found) ms k h =
    get-with_config config k (json_array (map Gemini.to_content found))

sent_option-lookup :
    (k : Text) (req : ProviderRequest) (ms : List Value)
    → (get (codes "messages") req.body >>= as_array) ≡ some ms
    → sent_option k req ≡ lookup k (Gemini.generation_config req.body)
unfolding transform_request Gemini.transform_request
sent_option-lookup k req ms h = get-request_of (Gemini.generation_config req.body) _ ms k h

-- For a body with an array of messages the adapter to Gemini sends the temperature, the top_p and
-- the limit of tokens that the client gave, under its own names, and none that it did not give.
pub transform_request-options :
    (req : ProviderRequest) (ms : List Value)
    → (get (codes "messages") req.body >>= as_array) ≡ some ms
    → (sent_option (codes "temperature") req ≡ get (codes "temperature") req.body)
      × (sent_option (codes "topP") req ≡ get (codes "top_p") req.body)
      × (sent_option (codes "maxOutputTokens") req ≡ get (codes "max_tokens") req.body)
transform_request-options req ms h = ground (
  arith,
  lookup-generation_config req.body,
  sent_option-lookup (codes "temperature") req ms h,
  sent_option-lookup (codes "topP") req ms h,
  sent_option-lookup (codes "maxOutputTokens") req ms h,
)
