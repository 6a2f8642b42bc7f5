-- ===== src/Trace.antt =====
-- src/core/observability/trace.rs: the ids of requests and the header `traceparent`. The random
-- UUIDs, in their simple form of 32 hexadecimal digits, are arguments.
pub mod RoundTrip
pub mod Spans
mod Tests
use rapid_gate.Base.{
  ℕ, ◌+◌, ◌-◌, ◌*◌, ◌/◌, ◌%◌, ltb, leb, ◌==◌, ◌&&◌, ◌||◌, Bool, true, false, all, Option, none,
  some, List, [], ◌∷◌, ◌++◌, map, take, Text, codes, len, split, text_eq, ascii_upper,
  if◌then◌else◌,
}
use rapid_gate.Base.Maybe.{◌>>=◌}
use rapid_gate.Json.{unwrap_or}

-- `char::is_ascii_hexdigit`
abbrev pub is_ascii_hexdigit : ℕ → Bool
is_ascii_hexdigit c =
    (leb b'0' c && leb c b'9') || (leb b'a' c && leb c b'f') || (leb b'A' c && leb c b'F')

-- `char::to_digit(16)`
abbrev pub to_digit : ℕ → Option ℕ
to_digit c =
    if leb b'0' c && leb c b'9'
    then some (c - b'0')
    else if leb b'a' c && leb c b'f'
    then some (c - b'a' + 10)
    else if leb b'A' c && leb c b'F'
    then some (c - b'A' + 10)
    else none

-- `u8::from_str_radix(_, 16)`: digits, behind a sign `+` or not, as long as they fit
unfoldable pub digits_from : ℕ → Text → Option ℕ
digits_from n [] = some n
digits_from n (c ∷ s) = do
  d ← to_digit c
  if ltb (n * 16 + d) 256 then digits_from (n * 16 + d) s else none

unfoldable pub from_str_radix : Text → Option ℕ
unfolding digits_from
from_str_radix [] = none
from_str_radix (c ∷ []) = digits_from 0 (c ∷ [])
from_str_radix (c ∷ d ∷ s) = if c == b'+' then digits_from 0 (d ∷ s) else digits_from 0 (c ∷ d ∷ s)

-- `{:02x}` of a u8
abbrev pub hex_char : ℕ → ℕ
hex_char d = if ltb d 10 then b'0' + d else b'a' + (d - 10)

unfoldable pub lower_hex : ℕ → Text
lower_hex n = hex_char (n / 16) ∷ hex_char (n % 16) ∷ []

-- a `TraceId` is its text
unfoldable pub trace_id : Text → Text
unfolding ascii_upper
trace_id uuid = map ascii_upper uuid

unfoldable pub from_hex : Text → Option Text
unfolding len ascii_upper
from_hex s = if len s == 32 && all is_ascii_hexdigit s then some (map ascii_upper s) else none

pub record TraceContext : Type 0 where
  pub trace_id : Text
  pub span_id : Text
  pub flags : ℕ

unfoldable pub from_parts : List Text → Option TraceContext
unfolding text_eq len from_str_radix
from_parts (version ∷ trace ∷ span ∷ flags ∷ []) =
    if text_eq version (codes "00")
      && len trace == 32
      && all is_ascii_hexdigit trace
      && len span == 16
      && all is_ascii_hexdigit span
    then (do
      n ← from_str_radix flags
      some (record { trace_id = trace; span_id = span; flags = n }))
    else none
from_parts _ = none

unfoldable pub from_traceparent : Text → Option TraceContext
unfolding split from_parts
from_traceparent value = from_parts (split b'-' value)

unfoldable pub to_traceparent : TraceContext → Text
unfolding lower_hex
to_traceparent c =
    codes "00" ++ (b'-' ∷ c.trace_id ++ (b'-' ∷ c.span_id ++ (b'-' ∷ lower_hex c.flags)))

unfoldable pub generate_span_id : Text → Text
generate_span_id uuid = take 16 uuid

unfoldable pub new_span : TraceContext → Text → TraceContext × Text
unfolding generate_span_id to_traceparent
new_span c uuid =
    let child = record c { span_id = generate_span_id uuid } in (child, to_traceparent child)

unfoldable pub new_root : Text → Text → TraceContext × Text
unfolding trace_id generate_span_id
new_root uuid uuid' = (
  record { trace_id = trace_id uuid; span_id = generate_span_id uuid'; flags = 1 },
  codes "00" ++ (b'-' ∷ trace_id uuid ++ (b'-' ∷ generate_span_id uuid' ++ codes "-01")),
)

-- `request_id` of src/service/middleware/trace.rs: what the next handler answers, and the id that the
-- response bears. `from_str` is that of a header's value.
unfoldable pub request_id :
    {A : Type 0} → (Text → Option Text) → (Text → A) → Option Text → Text → A × Text
unfolding from_hex trace_id
request_id from_str next header uuid =
    let id = unwrap_or (trace_id uuid) (header >>= from_hex) in
    let header_val = unwrap_or (codes "invalid") (from_str id) in (next header_val, header_val)
