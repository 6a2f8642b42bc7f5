-- ===== src/Providers/Requests.antt =====
-- What the adapters send to the upstream for a request of the client.
use rapid_gate.Base.{
  Text, codes, text_eq, text_eq_iff, Option, none, some, ap, ◌∙◌, List, [], ◌∷◌, map, ◌≡◌, ◌↔◌,
  refl, arith, if◌then◌else◌, Option-cases, inl, inr,
}
use rapid_gate.Base.Maybe.{◌>>=◌}
use rapid_gate.Error.{Result, ok}
use rapid_gate.Json.{
  Value, Fields, end, field, null, object, lookup, insert, get, as_str, as_array, json_array,
  json_number, unwrap_or, lookup-insert, index_set, string, json_object,
}
use rapid_gate.Providers.Types.{ProviderKind, openai, anthropic, gemini, local, ProviderRequest}
use rapid_gate.Providers.Factory.{transform_request}
use rapid_gate.Providers.Anthropic
use rapid_gate.Providers.Gemini

-- a field of a body that was sent
abbrev pub sent : Text → Option (Result Value) → Option Value
sent k (some (ok body)) = get k body
sent k _ = none

-- the values that are neither an object nor null
abbrev pub IsOther : Value → Type 0
IsOther null = ⊥
IsOther (object fs) = ⊥
IsOther _ = Unit

get-with_limit :
    (fs : Fields) (k : Text)
    → (Anthropic.with_limit (object fs) >>= get k) ≡ (
        if text_eq k (codes "max_tokens")
        then some (unwrap_or (json_number 4096) (lookup k fs))
        else lookup k fs)
unfolding Anthropic.with_limit get index_set
get-with_limit fs k = elim (Option-cases (lookup (codes "max_tokens") fs)) [
  | inl absent ↦ ground (
    arith,
    text_eq_iff k (codes "max_tokens"),
    text_eq_iff (codes "max_tokens") k,
    lookup-insert (codes "max_tokens") k (json_number 4096) fs,
  )
  | inr (limit, there) ↦ ground (arith, text_eq_iff k (codes "max_tokens"))
]

sent-some : (k : Text) (m : Option Value) → sent k (m >>= λ body. some (ok body)) ≡ (m >>= get k)
sent-some k none = refl
sent-some k (some body) = refl

-- For a body that is an object the adapter to Anthropic sends each of its fields, and a limit of
-- 4096 tokens if it has none.
pub transform_request-max_tokens :
    (req : ProviderRequest) (fs : Fields) (k : Text)
    → sent k (transform_request anthropic (record req { body = object fs })) ≡ (
        if text_eq k (codes "max_tokens")
        then some (unwrap_or (json_number 4096) (lookup k fs))
        else lookup k fs)
unfolding transform_request Anthropic.transform_request
transform_request-max_tokens req fs k =
    sent-some k (Anthropic.with_limit (object fs)) ∙ get-with_limit fs k

with_limit-panics : (v : Value) → (Anthropic.with_limit v ≡ none) ↔ IsOther v
unfolding Anthropic.with_limit get index_set
with_limit-panics null = ground arith
with_limit-panics (object fs) = elim (Option-cases (lookup (codes "max_tokens") fs)) [
  | inl absent ↦ ground arith
  | inr (limit, there) ↦ ground arith
]
with_limit-panics v = ground arith

-- Only the adapter to Anthropic panics, exactly on a body that is neither an object nor null.
pub transform_request-panics_iff :
    (kind : ProviderKind) (req : ProviderRequest)
    → (transform_request kind req ≡ none) ↔ ((kind ≡ anthropic) × IsOther req.body)
unfolding transform_request Anthropic.transform_request
transform_request-panics_iff anthropic req = ground (arith, with_limit-panics req.body)
transform_request-panics_iff gemini req = (λ h. cc, λ (h, _). cc)
transform_request-panics_iff openai req = (λ h. cc, λ (h, _). cc)
transform_request-panics_iff local req = (λ h. cc, λ (h, _). cc)

-- a turn of a conversation, as the client and as Gemini write it
pub data Role : Type 0 where
  system user assistant : Role

pub record Turn : Type 0 where
  pub role : Role
  pub text : Text

abbrev pub role_name : Role → Text
role_name system = codes "system"
role_name user = codes "user"
role_name assistant = codes "assistant"

-- Gemini has no role for the system in its contents.
abbrev pub gemini_role : Role → Text
gemini_role system = codes "user"
gemini_role user = codes "user"
gemini_role assistant = codes "model"

-- a message of the client says a turn, with its text as one string
abbrev pub Says : Value → Turn → Type 0
Says m t =
    (get (codes "role") m ≡ some (string (role_name t.role)))
    × (get (codes "content") m ≡ some (string t.text))

abbrev pub AllSay : List Value → List Turn → Type 0
AllSay [] [] = Unit
AllSay (m ∷ ms) (t ∷ ts) = Says m t × AllSay ms ts
AllSay _ _ = ⊥

abbrev pub gemini_content : Turn → Value
gemini_content t = json_object (
    (codes "role", string (gemini_role t.role))
    ∷ (codes "parts", json_array (json_object ((codes "text", string t.text) ∷ []) ∷ []))
    ∷ [])

content_of : Text → Text → Value
unfolding text_eq
content_of role text = json_object (
    (
      codes "role",
      string (if text_eq role (codes "assistant") then codes "model" else codes "user"),
    )
    ∷ (codes "parts", json_array (json_object ((codes "text", string text) ∷ []) ∷ []))
    ∷ [])

content_of-role :
    (r : Role) (text : Text)
    → content_of (role_name r) text ≡ gemini_content (record { role = r; text = text })
unfolding content_of
content_of-role system text = refl
content_of-role user text = refl
content_of-role assistant text = refl

to_content-Says : (m : Value) (t : Turn) → Says m t → Gemini.to_content m ≡ gemini_content t
unfolding Gemini.to_content as_str text_eq content_of
to_content-Says m t (role, content) = rw (role, content) (content_of-role t.role t.text)

to_content-AllSay :
    (ms : List Value) (ts : List Turn)
    → AllSay ms ts
    → map Gemini.to_content ms ≡ map gemini_content ts
to_content-AllSay [] [] h = refl
to_content-AllSay [] (t ∷ ts) h = absurd h
to_content-AllSay (m ∷ ms) [] h = absurd h
to_content-AllSay (m ∷ ms) (t ∷ ts) (h, hs) =
    λ i. to_content-Says m t h i ∷ to_content-AllSay ms ts hs i

lookup-with_config :
    (config : Fields) (v : Value)
    → lookup (codes "contents") (Gemini.with_config config (field (codes "contents") v end))
      ≡ some v
unfolding lookup insert text_eq
lookup-with_config end v = refl
lookup-with_config (field j w fs) v = refl

sent_contents :
    (config : Fields) (found : Option (List Value)) (ms : List Value)
    → found ≡ some ms
    → sent (codes "contents") (some (Gemini.request_of config found))
      ≡ some (json_array (map Gemini.to_content ms))
unfolding Gemini.request_of get
sent_contents config none ms h = cc
sent_contents config (some found) ms h =
    lookup-with_config config (json_array (map Gemini.to_content found))
    ∙ ap (λ (vs : List Value). some (json_array (map Gemini.to_content vs)))
        (some_injective found ms h)
  where
    some_injective : (xs ys : List Value) → some xs ≡ some ys → xs ≡ ys
    some_injective xs ys e = cc

-- For messages of the system, the user and the assistant whose content is one string, the adapter to
-- Gemini sends exactly one content for each, in order and with its text: the assistant's as the
-- model's, and those of the user and of the system as the user's.
pub transform_request-turns :
    (req : ProviderRequest) (ms : List Value) (ts : List Turn)
    → (get (codes "messages") req.body >>= as_array) ≡ some ms
    → AllSay ms ts
    → sent (codes "contents") (transform_request gemini req)
      ≡ some (json_array (map gemini_content ts))
unfolding transform_request Gemini.transform_request
transform_request-turns req ms ts found h =
    sent_contents (Gemini.generation_config req.body) _ ms found
    ∙ ap (λ (vs : List Value). some (json_array vs)) (to_content-AllSay ms ts h)
