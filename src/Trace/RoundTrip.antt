-- ===== src/Trace/RoundTrip.antt =====
-- The header `traceparent` that is written is read back.
use rapid_gate.Base.{
  ℕ, ◌/◌, ◌%◌, ◌<◌, true, all, some, [], ◌∷◌, Text, codes, len, Free, join, split-join, ◌≡◌, refl,
  ap, ◌∙◌, arith,
}
use rapid_gate.Trace.{
  is_ascii_hexdigit, to_digit, digits_from, from_str_radix, hex_char, lower_hex, TraceContext,
  from_parts, from_traceparent, to_traceparent,
}

-- a text of `n` hexadecimal digits
pub record IsHex (n : ℕ) (s : Text) : Type 0 where
  pub size : len s ≡ n
  pub digits : all is_ascii_hexdigit s ≡ true

-- what the documentation of W3C asks of a context
pub record IsTrace (c : TraceContext) : Type 0 where
  pub trace : IsHex 32 c.trace_id
  pub span : IsHex 16 c.span_id
  pub byte : c.flags < 256

digits-Free : (s : Text) → all is_ascii_hexdigit s ≡ true → Free b'-' s
digits-Free [] h = tt
digits-Free (c ∷ s) h = ground (arith, digits-Free s)

to_digit-hex_char : (d : ℕ) → d < 16 → to_digit (hex_char d) ≡ some d
to_digit-hex_char d h = ground arith

from_str_radix-lower_hex : (n : ℕ) → n < 256 → from_str_radix (lower_hex n) ≡ some n
unfolding from_str_radix lower_hex digits_from
from_str_radix-lower_hex n h =
    ground
      (arith, to_digit-hex_char (n / 16) (omega arith), to_digit-hex_char (n % 16) (omega arith))

lower_hex-Free : (n : ℕ) → n < 256 → Free b'-' (lower_hex n)
unfolding lower_hex
lower_hex-Free n h = ground arith

-- A context of well-formed ids is read back from the header that is written for it.
pub from_traceparent-to_traceparent :
    (c : TraceContext) → IsTrace c → from_traceparent (to_traceparent c) ≡ some c
unfolding from_traceparent to_traceparent join from_parts
from_traceparent-to_traceparent c h =
    ap from_parts (
      split-join b'-' (codes "00") (c.trace_id ∷ c.span_id ∷ lower_hex c.flags ∷ []) (
        (refl, (refl, tt)),
        (
          digits-Free c.trace_id h.trace.digits,
          (digits-Free c.span_id h.span.digits, (lower_hex-Free c.flags h.byte, tt)),
        ),
      ))
    ∙ rw
        (
          h.trace.size,
          h.trace.digits,
          h.span.size,
          h.span.digits,
          from_str_radix-lower_hex c.flags h.byte,
        )
        refl
