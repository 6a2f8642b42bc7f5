-- ===== src/Trace/Spans.antt =====
-- The ids that are made from random UUIDs are well formed, and a chain of spans keeps its trace.
use rapid_gate.Base.{
  ℕ, zero, suc, ◌≤◌, Bool, true, all, some, All, List, [], ◌∷◌, map, take, length, Text, len,
  ascii_upper, ◌≡◌, refl, ap, ◌∙◌, arith,
}
use rapid_gate.Trace.{
  is_ascii_hexdigit, trace_id, lower_hex, TraceContext, from_traceparent, to_traceparent,
  generate_span_id, new_span, new_root,
}
use rapid_gate.Trace.RoundTrip.{IsHex, IsTrace, from_traceparent-to_traceparent}

-- hexadecimal digits are one byte long
len-digits : (s : Text) → all is_ascii_hexdigit s ≡ true → len s ≡ length s
unfolding len
len-digits [] h = refl
len-digits (c ∷ s) h = ground (arith, len-digits s)

all-take : (p : ℕ → Bool) (n : ℕ) (s : Text) → all p s ≡ true → all p (take n s) ≡ true
all-take p zero s h = refl
all-take p (suc n) [] h = refl
all-take p (suc n) (c ∷ s) h = ground (arith, all-take p n s)

length-take : (n : ℕ) (s : Text) → n ≤ length s → length (take n s) ≡ n
length-take zero s h = refl
length-take (suc n) [] h = absurd (omega arith)
length-take (suc n) (c ∷ s) h = omega (arith, length-take n s)

all-upper :
    (s : Text) → all is_ascii_hexdigit s ≡ true → all is_ascii_hexdigit (map ascii_upper s) ≡ true
unfolding ascii_upper
all-upper [] h = refl
all-upper (c ∷ s) h = ground (arith, all-upper s)

len-upper : (s : Text) → len (map ascii_upper s) ≡ len s
unfolding len ascii_upper
len-upper [] = refl
len-upper (c ∷ s) = ground (arith, len-upper s)

generate_span_id-IsHex : (uuid : Text) → IsHex 32 uuid → IsHex 16 (generate_span_id uuid)
unfolding generate_span_id
generate_span_id-IsHex uuid h =
    let digits = all-take is_ascii_hexdigit 16 uuid h.digits in
    record {
      size =
          len-digits (take 16 uuid) digits
          ∙ length-take 16 uuid (omega (arith, len-digits uuid h.digits, h.size));
      digits = digits;
    }

trace_id-IsHex : (uuid : Text) → IsHex 32 uuid → IsHex 32 (trace_id uuid)
unfolding trace_id
trace_id-IsHex uuid h = record { size = len-upper uuid ∙ h.size; digits = all-upper uuid h.digits }

-- the context after a chain of spans
abbrev pub spans : TraceContext → List Text → TraceContext
spans c [] = c
spans c (uuid ∷ uuids) = spans (new_span c uuid).0 uuids

new_span-IsTrace :
    (c : TraceContext) (uuid : Text) → IsTrace c → IsHex 32 uuid → IsTrace (new_span c uuid).0
unfolding new_span
new_span-IsTrace c uuid h k = record {
  trace = h.trace;
  span = generate_span_id-IsHex uuid k;
  byte = h.byte;
}

spans-IsTrace :
    (c : TraceContext) (uuids : List Text)
    → IsTrace c
    → All (IsHex 32) uuids
    → IsTrace (spans c uuids)
      × ((spans c uuids).trace_id ≡ c.trace_id)
      × ((spans c uuids).flags ≡ c.flags)
unfolding new_span
spans-IsTrace c [] h ks = (h, refl, refl)
spans-IsTrace c (uuid ∷ uuids) h (k, ks) =
    spans-IsTrace (new_span c uuid).0 uuids (new_span-IsTrace c uuid h k) ks

new_root-IsTrace :
    (uuid uuid' : Text) → IsHex 32 uuid → IsHex 32 uuid' → IsTrace (new_root uuid uuid').0
unfolding new_root
new_root-IsTrace uuid uuid' h k = record {
  trace = trace_id-IsHex uuid h;
  span = generate_span_id-IsHex uuid' k;
  byte = omega arith;
}

new_root-to_traceparent :
    (uuid uuid' : Text) → (new_root uuid uuid').1 ≡ to_traceparent (new_root uuid uuid').0
unfolding new_root to_traceparent lower_hex
new_root-to_traceparent uuid uuid' = refl

-- The header that a new trace starts with is read back as its context, and after any chain of spans
-- the header is read back as the context of the last span, with the id and the flags of the trace.
pub spans-traceparent :
    (uuid uuid' : Text) (uuids : List Text)
    → IsHex 32 uuid
    → IsHex 32 uuid'
    → All (IsHex 32) uuids
    → (from_traceparent (new_root uuid uuid').1 ≡ some (new_root uuid uuid').0)
      × (from_traceparent (to_traceparent (spans (new_root uuid uuid').0 uuids))
          ≡ some (spans (new_root uuid uuid').0 uuids))
      × ((spans (new_root uuid uuid').0 uuids).trace_id ≡ trace_id uuid)
      × ((spans (new_root uuid uuid').0 uuids).flags ≡ 1)
unfolding new_root
spans-traceparent uuid uuid' uuids h k ks =
    let root = new_root-IsTrace uuid uuid' h k in
    let (last, same, flags) = spans-IsTrace (new_root uuid uuid').0 uuids root ks in
    (
      ap from_traceparent (new_root-to_traceparent uuid uuid')
          ∙ from_traceparent-to_traceparent (new_root uuid uuid').0 root,
      from_traceparent-to_traceparent (spans (new_root uuid uuid').0 uuids) last,
      same,
      flags,
    )
