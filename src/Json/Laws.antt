-- ===== src/Json/Laws.antt =====
-- What a lookup finds after an insertion and after a removal.
use rapid_gate.Base.{
  Text, text_eq, text_eq_iff, none, some, List, [], ◌∷◌, ◌≡◌, refl, ap, arith, if◌then◌else◌,
}
use rapid_gate.Json.Defs.{Value, Fields, end, field, lookup, insert, remove, elements, items}

pub lookup-insert :
    (k j : Text) (v : Value) (fs : Fields)
    → lookup j (insert k v fs) ≡ (if text_eq k j then some v else lookup j fs)
unfolding lookup insert
lookup-insert k j v end = refl
lookup-insert k j v (field i w fs) =
    ground (arith, text_eq_iff k j, text_eq_iff i k, text_eq_iff i j, lookup-insert k j v fs)

pub lookup-remove :
    (k j : Text) (fs : Fields)
    → lookup j (remove k fs) ≡ (if text_eq k j then none else lookup j fs)
unfolding lookup remove
lookup-remove k j end = ground arith
lookup-remove k j (field i w fs) =
    ground (arith, text_eq_iff k j, text_eq_iff i k, text_eq_iff i j, lookup-remove k j fs)

pub elements-items : (vs : List Value) → elements (items vs) ≡ vs
elements-items [] = refl
elements-items (v ∷ vs) = ap (λ xs. v ∷ xs) (elements-items vs)
