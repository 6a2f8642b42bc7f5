-- ===== src/Audit/Sums.antt =====
-- The counter of src/core/audit/counter.rs holds the sums of what it was given, up to the largest u64.
use rapid_gate.Base.{
  ℕ, ◌+◌, ◌≤◌, ◌<◌, ◌^◌, min, Text, Option, none, some, List, [], ◌∷◌, ◌≡◌, ◌↔◌, refl, arith, split,
}
use rapid_gate.Handler.Sse.{newline, lines_of}
use rapid_gate.Audit.Counter.{
  max_u64, TokenCounter, UsageBlock, SseData, usage_of, add_usage, accumulate_lines, accumulate,
  new_event,
}

-- the prompt and the completion tokens of a usage that may be missing
abbrev pub prompt_of : Option UsageBlock → ℕ
prompt_of none = 0
prompt_of (some u) = u.prompt_tokens

abbrev pub completion_of : Option UsageBlock → ℕ
completion_of none = 0
completion_of (some u) = u.completion_tokens

-- the sum of a count over lines
abbrev pub sum_over : (Text → ℕ) → List Text → ℕ
sum_over count [] = 0
sum_over count (l ∷ ls) = count l + sum_over count ls

pub record IsCounter (c : TokenCounter) : Type 0 where
  pub prompt : c.prompt_tokens ≤ max_u64
  pub completion : c.completion_tokens ≤ max_u64

-- adding with saturation once for each line is adding the sum with saturation
saturating_add_sum : (a b s : ℕ) → min max_u64 (min max_u64 (a + b) + s) ≡ min max_u64 (a + (b + s))
saturating_add_sum a b s = ground arith

module _ (from_str : Text → Option SseData) where
  add_usage-sum :
      (c : TokenCounter) (o : Option UsageBlock)
      → IsCounter c
      → ((add_usage from_str c o).prompt_tokens ≡ min max_u64 (c.prompt_tokens + prompt_of o))
        × ((add_usage from_str c o).completion_tokens
            ≡ min max_u64 (c.completion_tokens + completion_of o))
  unfolding add_usage
  add_usage-sum c none h = omega (arith, h.prompt, h.completion)
  add_usage-sum c (some u) h = (refl, refl)

  accumulate_lines-sum :
      (c : TokenCounter) (ls : List Text)
      → IsCounter c
      → ((accumulate_lines from_str c ls).prompt_tokens
          ≡ min max_u64 (c.prompt_tokens + sum_over (λ l. prompt_of (usage_of from_str l)) ls))
        × ((accumulate_lines from_str c ls).completion_tokens
            ≡ min max_u64
                (c.completion_tokens + sum_over (λ l. completion_of (usage_of from_str l)) ls))
  unfolding accumulate_lines
  accumulate_lines-sum c [] h = omega (arith, h.prompt, h.completion)
  accumulate_lines-sum c (l ∷ ls) h =
      let (p, q) = add_usage-sum c (usage_of from_str l) h in
      let next = add_usage from_str c (usage_of from_str l) in
      let (ps, qs) =
        accumulate_lines-sum next ls
          (record { prompt = omega (arith, p); completion = omega (arith, q) }) in
      (omega (arith, p, ps), omega (arith, q, qs))

  -- A chunk adds the usage of all its lines, and a count that would pass the largest u64 stays there.
  pub accumulate-sum :
      (c : TokenCounter) (chunk : Text)
      → IsCounter c
      → ((accumulate from_str c chunk).prompt_tokens
          ≡ min max_u64 (
              c.prompt_tokens
              + sum_over (λ l. prompt_of (usage_of from_str l)) (lines_of (split newline chunk))))
        × ((accumulate from_str c chunk).completion_tokens
            ≡ min max_u64 (
                c.completion_tokens
                + sum_over
                    (λ l. completion_of (usage_of from_str l))
                    (lines_of (split newline chunk))))
        × IsCounter (accumulate from_str c chunk)
  unfolding accumulate
  accumulate-sum c chunk h =
      let (p, q) = accumulate_lines-sum c (lines_of (split newline chunk)) h in
      (p, q, record { prompt = omega (arith, p); completion = omega (arith, q) })

-- An event has the token counts that it is given as u64, and as u32 exactly where they are below
-- 2^32.
pub new_event-bounds :
    (now tokens_in tokens_out latency_ms status : ℕ) (route_id api_key_hash : Text)
    → (((new_event now route_id api_key_hash tokens_in tokens_out latency_ms status).prompt_tokens
          ≡ tokens_in)
        ↔ (tokens_in < 2 ^ 32))
      × (((new_event now route_id api_key_hash tokens_in tokens_out latency_ms
              status).completion_tokens
            ≡ tokens_out)
          ↔ (tokens_out < 2 ^ 32))
unfolding new_event
new_event-bounds now tokens_in tokens_out latency_ms status route_id api_key_hash =
    ((λ h. omega arith, λ h. omega arith), (λ h. omega arith, λ h. omega arith))
