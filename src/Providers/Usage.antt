-- ===== src/Providers/Usage.antt =====
-- The token counts that the adapters report to the client.
use rapid_gate.Base.{
  ℕ, ◌+◌, ◌%◌, ◌^◌, ◌<◌, Text, codes, text_eq, Option, some, ◌≡◌, ◌↔◌, refl, arith,
}
use rapid_gate.Base.Maybe.{◌>>=◌}
use rapid_gate.Json.{Value, lookup, get, as_u64, unwrap_or}
use rapid_gate.Providers.Anthropic
use rapid_gate.Providers.Gemini

-- a count that the client reads of the usage of an answer
abbrev pub count : Text → Value → Option ℕ
count name usage = do v ← get name usage; as_u64 v

sum_fits : (a b : ℕ) → (some ((a + b) % 2 ^ 64) ≡ some (a + b)) ↔ (a + b < 2 ^ 64)
sum_fits a b = (λ h. ground arith, λ h. ground arith)

module _ (raw : Option Value) where
  -- The usage of a translated answer of Anthropic has the input and the output tokens, 0 for a count
  -- that is missing, and a total that is their sum exactly when that is below 2^64.
  pub map_anthropic_usage-bounds :
      (count (codes "prompt_tokens") (Anthropic.map_anthropic_usage raw)
        ≡ some (Anthropic.tokens (codes "input_tokens") raw))
      × (count (codes "completion_tokens") (Anthropic.map_anthropic_usage raw)
          ≡ some (Anthropic.tokens (codes "output_tokens") raw))
      × ((count (codes "total_tokens") (Anthropic.map_anthropic_usage raw)
            ≡ some (
                Anthropic.tokens (codes "input_tokens") raw
                + Anthropic.tokens (codes "output_tokens") raw))
          ↔ (Anthropic.tokens (codes "input_tokens") raw
                + Anthropic.tokens (codes "output_tokens") raw
              < 2 ^ 64))
  unfolding Anthropic.map_anthropic_usage get lookup as_u64 text_eq
  map_anthropic_usage-bounds = (
    refl,
    refl,
    sum_fits (Anthropic.tokens (codes "input_tokens") raw)
        (Anthropic.tokens (codes "output_tokens") raw),
  )

  -- The total that Gemini counts is passed on, and where it counts none the total is the sum of the
  -- counts that are passed on, if that is below 2^64.
  pub map_gemini_usage-total :
      unwrap_or 0 (Gemini.tokens (codes "promptTokenCount") raw)
          + unwrap_or 0 (Gemini.tokens (codes "candidatesTokenCount") raw)
        < 2 ^ 64
      → count (codes "total_tokens") (Gemini.map_gemini_usage raw)
        ≡ some (
            unwrap_or
              (unwrap_or 0 (Gemini.tokens (codes "promptTokenCount") raw)
                + unwrap_or 0 (Gemini.tokens (codes "candidatesTokenCount") raw))
              (Gemini.tokens (codes "totalTokenCount") raw))
  unfolding Gemini.map_gemini_usage get lookup as_u64 text_eq
  map_gemini_usage-total h = ground arith
