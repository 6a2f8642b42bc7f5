-- ===== src/Proxy/Batch.antt =====
-- src/core/proxy/stream.rs: how the body of an upstream's response is passed on in chunks.
use rapid_gate.Base.{ℕ, leb, Option, none, some, List, [], ◌∷◌, ◌++◌, length, Text, if◌then◌else◌}

abbrev pub batch_threshold : ℕ
batch_threshold = 1024

-- what the upstream's stream yields
pub data Part : Type 0 where
  part : List ℕ → Part
  lost : Part

-- what the closure of the scan answers with a buffer: the new buffer, and a part or the end
unfoldable pub on_part : List ℕ → Part → List ℕ × Option Part
on_part buf (part chunk) =
    let all = buf ++ chunk in
    if leb batch_threshold (length all) then ([], some (part all)) else (all, none)
on_part [] lost = ([], some lost)
on_part (b ∷ buf) lost = ([], some (part (b ∷ buf)))

-- the scan ends where the closure answers `None`
unfoldable pub batch : List ℕ → List Part → List Part
batch buf [] = []
batch buf (p ∷ ps) =
    let answer = on_part buf p in elim answer.1 [ none ↦ [] | some out ↦ out ∷ batch answer.0 ps ]

pub record StreamResponse : Type 0 where
  pub status : ℕ
  pub content_type : Option Text
  pub body : List Part

unfoldable pub into_axum_response : ℕ → Option Text → List Part → StreamResponse
unfolding batch
into_axum_response status content_type parts = record {
  status = status;
  content_type = content_type;
  body = batch [] parts;
}
