-- ===== src/Audit/Tests.antt =====
-- The unit tests of src/core/audit/counter.rs, with a parser that reads one usage.
use rapid_gate.Base.{
  ◌+◌, min, Text, codes, split, Option, none, some, [], ◌∷◌, ◌++◌, ◌≡◌, refl, arith, is_empty,
}
use rapid_gate.Handler.Sse.{newline, lines_of, strip_return}
use rapid_gate.Audit.Counter.{
  max_u64, new, SseData, usage_of, accumulate, total, accumulate_lines, add_usage,
}
use rapid_gate.Audit.Sums.{sum_over, prompt_of, completion_of, IsCounter, accumulate-sum}

abbrev read_usage : Text → Option SseData
read_usage [] = none
read_usage (c ∷ s) = some (some (record { prompt_tokens = 10; completion_tokens = 20 }))

abbrev chunk : Text
chunk = codes "data: {\"usage\":1}" ++ (10 ∷ 10 ∷ [])

new-IsCounter : IsCounter new
new-IsCounter = record { prompt = omega arith; completion = omega arith }

accumulate_from_sse_chunk : (accumulate read_usage new chunk).completion_tokens ≡ 20
unfolding accumulate accumulate_lines split is_empty add_usage usage_of strip_return
accumulate_from_sse_chunk = refl

skip_done_marker : total (accumulate read_usage new (codes "data: [DONE]" ++ (10 ∷ 10 ∷ []))) ≡ 0
unfolding accumulate total accumulate_lines split is_empty add_usage usage_of strip_return
skip_done_marker = refl

accumulate-sum_example :
    ((accumulate read_usage new chunk).prompt_tokens
      ≡ min max_u64
          (0 + sum_over (λ l. prompt_of (usage_of read_usage l)) (lines_of (split newline chunk))))
    × ((accumulate read_usage new chunk).completion_tokens
        ≡ min max_u64 (
            0
            + sum_over
                (λ l. completion_of (usage_of read_usage l))
                (lines_of (split newline chunk))))
    × IsCounter (accumulate read_usage new chunk)
accumulate-sum_example = accumulate-sum read_usage new chunk new-IsCounter
