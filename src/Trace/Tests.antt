-- ===== src/Trace/Tests.antt =====
-- Contexts that are written and read back.
use rapid_gate.Base.{codes, len, ◌≡◌, refl, arith, some}
use rapid_gate.Trace.{TraceContext, from_traceparent, to_traceparent, from_str_radix}
use rapid_gate.Trace.RoundTrip.{IsTrace, from_traceparent-to_traceparent}

abbrev context : TraceContext
context = record {
  trace_id = codes "4bf92f3577b34da6a3ce929d0e0e4736";
  span_id = codes "00f067aa0ba902b7";
  flags = 1;
}

context-IsTrace : IsTrace context
unfolding len
context-IsTrace = record {
  trace = record { size = refl; digits = refl };
  span = record { size = refl; digits = refl };
  byte = omega arith;
}

written : to_traceparent context ≡ codes "00-4bf92f3577b34da6a3ce929d0e0e4736-00f067aa0ba902b7-01"
unfolding to_traceparent
written = refl

-- a sign and a single digit are taken for flags
loose_flags : from_str_radix (codes "+1") ≡ some 1
unfolding from_str_radix
loose_flags = refl

from_traceparent-to_traceparent_example : from_traceparent (to_traceparent context) ≡ some context
from_traceparent-to_traceparent_example = from_traceparent-to_traceparent context context-IsTrace
