-- ===== src/Providers/Factory.antt =====
-- The provider that the factory of src/service/providers/mod.rs gives for each kind: its methods, by
-- the kind.
use rapid_gate.Base.{ℕ, Text, Option, some, List}
use rapid_gate.Error.{Result}
use rapid_gate.Json.{Value}
use rapid_gate.Providers.Types.{
  ProviderKind, openai, anthropic, gemini, local, ProviderRequest, ProviderResponse,
}
use rapid_gate.Providers.Types
use rapid_gate.Providers.Anthropic
use rapid_gate.Providers.Gemini
use rapid_gate.Providers.Compatible

-- `none` where it panics
unfoldable pub transform_request : ProviderKind → ProviderRequest → Option (Result Value)
transform_request openai req = some (Compatible.transform_request req)
transform_request local req = some (Compatible.transform_request req)
transform_request anthropic req = Anthropic.transform_request req
transform_request gemini req = some (Gemini.transform_request req)

unfoldable pub transform_response :
    (List ℕ → Option Value) → ProviderKind → ProviderResponse → Result Value
transform_response from_slice openai = Compatible.openai_response from_slice
transform_response from_slice local = Compatible.local_response from_slice
transform_response from_slice anthropic = Anthropic.transform_response from_slice
transform_response from_slice gemini = Gemini.transform_response from_slice

unfoldable pub build_url : ProviderKind → ProviderRequest → Text
unfolding Types.build_url Gemini.build_url
build_url openai = Types.build_url Compatible.api_path Compatible.openai_embedding_path
build_url local = Types.build_url Compatible.api_path Compatible.api_path
build_url anthropic = Types.build_url Anthropic.api_path Anthropic.api_path
build_url gemini = Gemini.build_url
