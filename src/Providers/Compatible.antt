-- ===== src/Providers/Compatible.antt =====
-- The adapters whose upstreams speak OpenAI's protocol: src/service/providers/openai.rs and
-- src/service/providers/local.rs. The texts of their errors are all that tells them apart.
use rapid_gate.Base.{ℕ, Text, codes, Option, none, some, List, if◌then◌else◌}
use rapid_gate.Error.{Result, ok, err, internal}
use rapid_gate.Json.{Value, null, unwrap_or}
use rapid_gate.Providers.Types.{ProviderRequest, ProviderResponse}

abbrev pub api_path : Text
api_path = codes "/v1/chat/completions"

abbrev pub openai_embedding_path : Text
openai_embedding_path = codes "/v1/embeddings"

unfoldable pub transform_request : ProviderRequest → Result Value
transform_request req = ok req.body

unfoldable pub transform_response : (List ℕ → Option Value) → Text → ProviderResponse → Result Value
transform_response from_slice message resp =
    if resp.is_stream
    then ok (unwrap_or null (from_slice resp.body))
    else elim (from_slice resp.body) [ none ↦ err (internal message) | some full ↦ ok full ]

unfoldable pub openai_response : (List ℕ → Option Value) → ProviderResponse → Result Value
unfolding transform_response
openai_response from_slice = transform_response from_slice (codes "failed to parse OpenAI response")

unfoldable pub local_response : (List ℕ → Option Value) → ProviderResponse → Result Value
unfolding transform_response
local_response from_slice = transform_response from_slice (codes "failed to parse Local response")
