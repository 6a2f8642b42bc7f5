-- ===== src/Audit/Counter.antt =====
-- src/core/audit/counter.rs, and the event of src/core/audit/mod.rs. The JSON parser of serde_json is
-- a parameter: what it reads of the usage in a line.
use rapid_gate.Base.{
  ℕ, ◌+◌, ◌-◌, ◌^◌, ◌%◌, min, Text, codes, text_eq, split, strip_prefix, Option, none, some, List,
  [], ◌∷◌, if◌then◌else◌,
}
use rapid_gate.Handler.Sse.{newline, lines_of}

abbrev pub max_u64 : ℕ
max_u64 = 2 ^ 64 - 1

-- `u64::saturating_add`
abbrev pub saturating_add : ℕ → ℕ → ℕ
saturating_add a b = min max_u64 (a + b)

pub record TokenCounter : Type 0 where
  pub prompt_tokens : ℕ
  pub completion_tokens : ℕ

abbrev pub new : TokenCounter
new = record { prompt_tokens = 0; completion_tokens = 0 }

-- both fields default to 0
pub record UsageBlock : Type 0 where
  pub prompt_tokens : ℕ
  pub completion_tokens : ℕ

-- `SseData`: `none` for a line that does not parse, and then `none` for one without usage
abbrev pub SseData : Type 0
SseData = Option UsageBlock

module _ (from_str : Text → Option SseData) where
  -- the data of a line, with or without its prefix
  abbrev pub data_of : Text → Text
  data_of line = elim (strip_prefix (codes "data: ") line) [ none ↦ line | some rest ↦ rest ]

  -- the usage that a line has, if any
  unfoldable pub usage_of : Text → Option UsageBlock
  unfolding strip_prefix text_eq
  usage_of line =
      if text_eq (data_of line) (codes "[DONE]")
      then none
      else elim (from_str (data_of line)) [ none ↦ none | some usage ↦ usage ]

  unfoldable pub add_usage : TokenCounter → Option UsageBlock → TokenCounter
  add_usage c none = c
  add_usage c (some u) = record {
    prompt_tokens = saturating_add c.prompt_tokens u.prompt_tokens;
    completion_tokens = saturating_add c.completion_tokens u.completion_tokens;
  }

  -- the loop over the lines
  unfoldable pub accumulate_lines : TokenCounter → List Text → TokenCounter
  accumulate_lines c [] = c
  accumulate_lines c (line ∷ lines) = accumulate_lines (add_usage c (usage_of line)) lines

  unfoldable pub accumulate : TokenCounter → Text → TokenCounter
  accumulate c chunk = accumulate_lines c (lines_of (split newline chunk))

unfoldable pub total : TokenCounter → ℕ
total c = saturating_add c.prompt_tokens c.completion_tokens

pub record AuditEvent : Type 0 where
  pub timestamp : ℕ
  pub route_id : Text
  pub api_key_hash : Text
  pub tokens_in : ℕ
  pub tokens_out : ℕ
  pub latency_ms : ℕ
  pub status : ℕ
  pub trace_id : Text
  pub user_id : Option Text
  pub provider : Text
  pub model : Text
  pub prompt_tokens : ℕ
  pub completion_tokens : ℕ

-- `as u32` keeps the lower 32 bits.
unfoldable pub new_event : ℕ → Text → Text → ℕ → ℕ → ℕ → ℕ → AuditEvent
new_event now route_id api_key_hash tokens_in tokens_out latency_ms status = record {
  timestamp = now;
  route_id = route_id;
  api_key_hash = api_key_hash;
  tokens_in = tokens_in;
  tokens_out = tokens_out;
  latency_ms = latency_ms;
  status = status;
  trace_id = [];
  user_id = none;
  provider = [];
  model = [];
  prompt_tokens = tokens_in % 2 ^ 32;
  completion_tokens = tokens_out % 2 ^ 32;
}
