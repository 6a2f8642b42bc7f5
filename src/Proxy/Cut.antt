-- ===== src/Proxy/Cut.antt =====
-- What of a response's body src/core/proxy/stream.rs passes on.
use rapid_gate.Base.{
  ℕ, leb, Bool-cases, Option, List, [], ◌∷◌, length, Text, ◌≡◌, refl, ap, arith, inl, inr,
  if◌then◌else◌,
}
use rapid_gate.Proxy.Batch.{batch_threshold, Part, part, lost, on_part, batch, into_axum_response}

-- the parts in front of the first chunk that is shorter than the threshold
abbrev pub full_parts : List Part → List Part
full_parts [] = []
full_parts (lost ∷ ps) = lost ∷ full_parts ps
full_parts (part chunk ∷ ps) =
    if leb batch_threshold (length chunk) then part chunk ∷ full_parts ps else []

batch-full_parts : (ps : List Part) → batch [] ps ≡ full_parts ps
unfolding batch on_part
batch-full_parts [] = refl
batch-full_parts (lost ∷ ps) = ap (λ rest. lost ∷ rest) (batch-full_parts ps)
batch-full_parts (part chunk ∷ ps) = elim (Bool-cases (leb batch_threshold (length chunk))) [
  | inl long ↦ ground (arith, batch-full_parts ps)
  | inr short ↦ ground arith
]

-- The body that is passed on is cut off in front of the first chunk that is shorter than the
-- threshold; the chunks before it are passed on as they came.
pub into_axum_response-cut :
    (status : ℕ) (content_type : Option Text) (ps : List Part)
    → (into_axum_response status content_type ps).body ≡ full_parts ps
unfolding into_axum_response
into_axum_response-cut status content_type ps = batch-full_parts ps
