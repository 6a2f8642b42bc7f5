-- ===== src/Providers/Types.antt =====
-- Requests and responses of a provider, and the provider kinds: src/service/providers/mod.rs and
-- src/core/config/provider.rs.
use rapid_gate.Base.{ℕ, Bool, Text, codes, text_eq, trim_end_by, ◌==◌, ◌++◌, List, if◌then◌else◌}
use rapid_gate.Json.{Value}

pub data ProviderKind : Type 0 where
  openai anthropic gemini local : ProviderKind

-- `Display for ProviderKind`
unfoldable pub display : ProviderKind → Text
display openai = codes "openai"
display anthropic = codes "anthropic"
display gemini = codes "gemini"
display local = codes "local"

pub record ProviderRequest : Type 0 where
  pub body : Value
  pub base_url : Text
  pub api_key : Text
  pub model : Text
  pub stream : Bool
  pub operation : Text

-- The body is a sequence of bytes.
pub record ProviderResponse : Type 0 where
  pub body : List ℕ
  pub status : ℕ
  pub is_stream : Bool

-- the default method `Provider::build_url`
unfoldable pub build_url : Text → Text → ProviderRequest → Text
unfolding trim_end_by text_eq
build_url api_path embedding_path req =
    trim_end_by (λ c. c == b'/') req.base_url
    ++ (if text_eq req.operation (codes "embeddings") then embedding_path else api_path)
