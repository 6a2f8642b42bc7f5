-- ===== src/Providers/Pieces.antt =====
-- The text of an answer in a provider's own format, by all its pieces, and what a client that is told
-- the first piece reads of it.
use rapid_gate.Base.{if◌then◌else◌, List, Text, codes, text_eq, Option, none, some, [], ◌≡◌, refl}
use rapid_gate.Base.Maybe.{◌>>=◌}
use rapid_gate.Base.{drop, length, ◌≤◌, ◌++◌, append-nil, sym, subst, ◌∷◌, arith}
use rapid_gate.Json.{Value, get, as_str, as_array, first, unwrap_or}
use rapid_gate.Providers.Types.{ProviderKind, anthropic, gemini}

-- the text of a piece of an answer, and of all its pieces together; a piece of another kind, such as
-- the use of a tool, has none
abbrev pub text_of : Value → Text
text_of piece = unwrap_or [] (do text ← get (codes "text") piece; as_str text)

abbrev pub all_text : List Value → Text
all_text [] = []
all_text (piece ∷ pieces) = text_of piece ++ all_text pieces

-- the pieces of an answer in the provider's own format: the blocks of Anthropic's content, and the
-- parts of Gemini's first candidate
abbrev pub pieces : ProviderKind → Value → List Value
pieces anthropic v = unwrap_or [] (do content ← get (codes "content") v; as_array content)
pieces gemini v = unwrap_or [] (do
  candidates ← get (codes "candidates") v
  all ← as_array candidates
  candidate ← first all
  content ← get (codes "content") candidate
  parts ← get (codes "parts") content
  as_array parts)
pieces _ v = []

-- the pieces of an event: Anthropic's events of one type have a delta, and Gemini's have the form of
-- an answer
abbrev pub event_pieces : ProviderKind → Value → List Value
event_pieces anthropic v = unwrap_or [] (do
  kind ← get (codes "type") v
  name ← as_str kind
  delta ← (if text_eq name (codes "content_block_delta") then get (codes "delta") v else none)
  some (delta ∷ []))
event_pieces kind v = pieces kind v

-- A text is what the first piece says: the text of the others is missing behind it, and nothing is if
-- there are no others.
pub record IsRead (ps : List Value) (t : Text) : Type 0 where
  pub leads : all_text ps ≡ t ++ all_text (drop 1 ps)
  pub whole : length ps ≤ 1 → t ≡ all_text ps

abbrev pub lead : List Value → Text
lead [] = []
lead (piece ∷ ps) = text_of piece

lead-IsRead : (ps : List Value) → IsRead ps (lead ps)
unfolding get as_str
lead-IsRead [] = record { leads = refl; whole = λ h. refl }
lead-IsRead (piece ∷ []) = record { leads = refl; whole = λ h. sym (append-nil (text_of piece)) }
lead-IsRead (piece ∷ q ∷ ps) = record { leads = refl; whole = λ h. absurd (omega arith) }

pub equal-IsRead : (ps : List Value) (t : Text) → t ≡ lead ps → IsRead ps t
equal-IsRead ps t e = subst (IsRead ps) (sym e) (lead-IsRead ps)

pub lead-bind {ℓ} :
    {A : Type ℓ} (m : Option A) (f : A → Option (List Value)) (g : A → Option Text)
    → ((a : A) → unwrap_or [] (g a) ≡ lead (unwrap_or [] (f a)))
    → unwrap_or [] (m >>= g) ≡ lead (unwrap_or [] (m >>= f))
lead-bind none f g h = refl
lead-bind (some a) f g h = h a

pub lead-first :
    (o : Option (List Value))
    → unwrap_or [] (do ps ← o; piece ← first ps; text ← get (codes "text") piece; as_str text)
      ≡ lead (unwrap_or [] o)
lead-first none = refl
lead-first (some []) = refl
lead-first (some (piece ∷ ps)) = refl

pub lead-delta :
    (o : Option Value)
    → unwrap_or [] (do delta ← o; text ← get (codes "text") delta; as_str text)
      ≡ lead (unwrap_or [] (do delta ← o; some (delta ∷ [])))
lead-delta none = refl
lead-delta (some delta) = refl
