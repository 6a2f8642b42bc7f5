-- ===== src/Proxy/Body.antt =====
-- What a body rule of src/core/proxy/transformer.rs does to the fields of a body.
use rapid_gate.Base.{
  Bool, true, false, Text, text_eq, text_eq_refl, text_eq_iff, split, Option, none, some,
  Option-cases, split-ne_nil, List, [], ◌∷◌, ◌≡◌, refl, arith, if◌then◌else◌, ◌⊎◌, inl, inr,
}
use rapid_gate.Json.{Value, lookup, get, null, object, lookup-insert, lookup-remove}
use rapid_gate.Proxy.Transformer.{BodyRule, edit_last, edit_path, apply_body_rule}

-- the value that stands at a path
unfoldable pub get_path : List Text → Value → Option Value
get_path [] v = some v
get_path (seg ∷ segs) v = elim (get seg v) [ none ↦ none | some w ↦ get_path segs w ]

abbrev pub is_object : Value → Bool
is_object (object fs) = true
is_object _ = false

-- whether the value that would hold the last key of the path is there and is an object
unfoldable pub is_holder : List Text → Value → Bool
is_holder [] v = false
is_holder (last ∷ []) v = is_object v
is_holder (seg ∷ next ∷ segs) v = elim (get seg v) [
  | none ↦ false
  | some w ↦ is_holder (next ∷ segs) w
]

-- two paths that part at some key, so that neither leads through the other
abbrev pub Apart : List Text → List Text → Type 0
Apart [] q = ⊥
Apart (s ∷ p) [] = ⊥
Apart (s ∷ p) (t ∷ q) = (text_eq s t ≡ false) ⊎ Apart p q

get_path-edit_last :
    (last : Text) (to : Option Value) (v : Value)
    → get_path (last ∷ []) (edit_last last to v) ≡ (if is_object v then to else none)
unfolding get_path edit_last get
get_path-edit_last last (some w) (object fs) =
    ground (arith, lookup-insert last last w fs, text_eq_refl last)
get_path-edit_last last none (object fs) =
    ground (arith, lookup-remove last last fs, text_eq_refl last)
get_path-edit_last last (some w) null = refl
get_path-edit_last last none null = refl
get_path-edit_last last to v = ground arith

get_path-edit_path :
    (seg : Text) (segs : List Text) (to : Option Value) (v : Value)
    → get_path (seg ∷ segs) (edit_path (seg ∷ segs) to v)
      ≡ (if is_holder (seg ∷ segs) v then to else none)
unfolding edit_path is_holder get get_path
get_path-edit_path last [] to v = get_path-edit_last last to v
get_path-edit_path seg (next ∷ segs) to (object fs) =
    let edited = edit_path (next ∷ segs) to in
    let below = get_path-edit_path next segs to in
    elim (Option-cases (lookup seg fs)) [
      | inl absent ↦ ground arith
      | inr (v, there) ↦
          ground (arith, lookup-insert seg seg (edited v) fs, text_eq_refl seg, below v)
    ]
get_path-edit_path seg (next ∷ segs) to null = refl
get_path-edit_path seg (next ∷ segs) to v = refl

get_path-edit_last_other :
    (last : Text) (q : List Text) (to : Option Value) (v : Value)
    → Apart (last ∷ []) q
    → get_path q (edit_last last to v) ≡ get_path q v
unfolding get_path edit_last get
get_path-edit_last_other last [] to v h = absurd h
get_path-edit_last_other last (t ∷ q) (some w) (object fs) h =
    ground (arith, lookup-insert last t w fs)
get_path-edit_last_other last (t ∷ q) none (object fs) h = ground (arith, lookup-remove last t fs)
get_path-edit_last_other last (t ∷ q) (some w) null h = refl
get_path-edit_last_other last (t ∷ q) none null h = refl
get_path-edit_last_other last (t ∷ q) to v h = ground arith

get_path-edit_path_other :
    (path q : List Text) (to : Option Value) (v : Value)
    → Apart path q
    → get_path q (edit_path path to v) ≡ get_path q v
unfolding edit_path get get_path
get_path-edit_path_other [] q to v h = absurd h
get_path-edit_path_other (last ∷ []) q to v h = get_path-edit_last_other last q to v h
get_path-edit_path_other (seg ∷ next ∷ segs) [] to v h = absurd h
get_path-edit_path_other (seg ∷ next ∷ segs) (t ∷ q) to (object fs) h =
    elim (Option-cases (lookup seg fs)) [
      | inl absent ↦ ground arith
      | inr (v, there) ↦ ground (
        arith,
        lookup-insert seg t (edit_path (next ∷ segs) to v) fs,
        text_eq_iff seg t,
        get_path-edit_path_other (next ∷ segs) q to v,
      )
    ]
get_path-edit_path_other (seg ∷ next ∷ segs) (t ∷ q) to null h = refl
get_path-edit_path_other (seg ∷ next ∷ segs) (t ∷ q) to v h = ground arith

-- After a rule is applied its path leads to the value of the rule, or to nothing for a rule that
-- deletes, if the object that holds the last key is there, and to nothing otherwise.
pub apply_body_rule-target :
    (body : Value) (rule : BodyRule)
    → get_path (split b'.' rule.field) (apply_body_rule body rule)
      ≡ (if is_holder (split b'.' rule.field) body then rule.rewrite_to else none)
unfolding apply_body_rule
apply_body_rule-target body rule =
    let (seg, segs, parts) = split-ne_nil b'.' rule.field in
    rw parts (get_path-edit_path seg segs rule.rewrite_to body)

-- A rule leaves what stands at a path as it is, if that path and the rule's part at some key.
pub apply_body_rule-elsewhere :
    (body : Value) (rule : BodyRule) (q : List Text)
    → Apart (split b'.' rule.field) q
    → get_path q (apply_body_rule body rule) ≡ get_path q body
unfolding apply_body_rule
apply_body_rule-elsewhere body rule q h =
    get_path-edit_path_other (split b'.' rule.field) q rule.rewrite_to body h
