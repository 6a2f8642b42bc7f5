-- ===== src/Handler/Models.antt =====
-- The list of `list_models`: what it holds, and that it holds nothing twice.
use rapid_gate.Base.{
  Bool, true, false, ◌||◌, List, [], ◌∷◌, ◌++◌, any, Text, text_eq, text_eq_iff, ◌≡◌, refl, sym, ap,
  subst, ◌∙◌, inl, inr, Bool-cases, Bool-clash, if◌then◌else◌, arith,
}
use rapid_gate.Config.{UpstreamConfig}
use rapid_gate.Handler.{add_models, all_models, list_models}

-- no text of the list occurs again later in it
abbrev pub IsDistinct : List Text → Type 0
IsDistinct [] = Unit
IsDistinct (m ∷ ms) = (any (text_eq m) ms ≡ false) × IsDistinct ms

-- some upstream serves the model
abbrev pub serves : Text → List UpstreamConfig → Bool
serves m configs = any (λ u. any (text_eq m) u.models) configs

abbrev pub push : List Text → Text → List Text
push ms m = if any (text_eq m) ms then ms else ms ++ (m ∷ [])

or_assoc : (a b c : Bool) → (a || (b || c)) ≡ ((a || b) || c)
or_assoc a b c = ground arith

or-false : (a b : Bool) → (a || b) ≡ false → (a ≡ false) × (b ≡ false)
or-false a b h = ground arith

both-false : (a b : Bool) → a ≡ false → b ≡ false → (a || b) ≡ false
both-false a b h k = ground arith

text_eq-flip : (s t : Text) → text_eq s t ≡ false → text_eq t s ≡ false
text_eq-flip s t h = elim (Bool-cases (text_eq t s)) [
  | inl y ↦
      let same : text_eq s t ≡ true = (text_eq_iff s t).1 (sym ((text_eq_iff t s).0 y)) in
      absurd (Bool-clash (text_eq s t) same h)
  | inr n ↦ n
]

list_models-some :
    (configs : List UpstreamConfig) (ms : List Text)
    → all_models [] configs ≡ ms
    → (m : Text) → any (text_eq m) (all_models [] configs) ≡ true
    → list_models configs ≡ all_models [] configs
unfolding list_models
list_models-some configs [] e m h =
    absurd (Bool-clash (any (text_eq m) (all_models [] configs)) h (ap (any (text_eq m)) e))
list_models-some configs (x ∷ xs) e m h = rw (e, list_models) refl

any-snoc :
    (p : Text → Bool) (ms : List Text) (m : Text) → any p (ms ++ (m ∷ [])) ≡ (any p ms || p m)
any-snoc p [] m = ground arith
any-snoc p (x ∷ xs) m = rw (any-snoc p xs m) (or_assoc (p x) (any p xs) (p m))

IsDistinct-snoc :
    (ms : List Text) (m : Text)
    → IsDistinct ms
    → any (text_eq m) ms ≡ false
    → IsDistinct (ms ++ (m ∷ []))
IsDistinct-snoc [] m d f = (refl, tt)
IsDistinct-snoc (x ∷ xs) m (h, d) f =
    let (apart, later) = or-false (text_eq m x) (any (text_eq m) xs) f in
    (
      any-snoc (text_eq x) xs m
          ∙ both-false (any (text_eq x) xs) (text_eq x m) h (text_eq-flip m x apart),
      IsDistinct-snoc xs m d later,
    )

IsDistinct-push : (ms : List Text) (m : Text) → IsDistinct ms → IsDistinct (push ms m)
IsDistinct-push ms m d = elim (Bool-cases (any (text_eq m) ms)) [
  | inl e ↦ rw e d
  | inr e ↦ rw e (IsDistinct-snoc ms m d e)
]

any-push :
    (x : Text) (ms : List Text) (m : Text)
    → any (text_eq x) (push ms m) ≡ (any (text_eq x) ms || text_eq x m)
any-push x ms m = elim (Bool-cases (any (text_eq m) ms)) [
  | inl e ↦ rw e (elim (Bool-cases (text_eq x m)) [
    | inl y ↦
        let known : any (text_eq x) ms ≡ true =
          subst (λ z. any (text_eq z) ms ≡ true) (sym ((text_eq_iff x m).0 y)) e in
        ground arith
    | inr n ↦ ground arith
  ])
  | inr e ↦ rw e (any-snoc (text_eq x) ms m)
]

add_models-cons :
    (ms : List Text) (m : Text) (new : List Text)
    → add_models ms (m ∷ new) ≡ add_models (push ms m) new
unfolding add_models
add_models-cons ms m new = refl

add_models-any :
    (x : Text) (ms new : List Text)
    → any (text_eq x) (add_models ms new) ≡ (any (text_eq x) ms || any (text_eq x) new)
add_models-any x ms [] = unfold add_models in ground arith
add_models-any x ms (m ∷ new) =
    ap (any (text_eq x)) (add_models-cons ms m new)
    ∙ add_models-any x (push ms m) new
    ∙ rw (any-push x ms m) (sym (or_assoc (any (text_eq x) ms) (text_eq x m) (any (text_eq x) new)))

add_models-IsDistinct : (ms new : List Text) → IsDistinct ms → IsDistinct (add_models ms new)
add_models-IsDistinct ms [] d = unfold add_models in d
add_models-IsDistinct ms (m ∷ new) d =
    subst IsDistinct (sym (add_models-cons ms m new))
      (add_models-IsDistinct (push ms m) new (IsDistinct-push ms m d))

all_models-any :
    (x : Text) (ms : List Text) (ups : List UpstreamConfig)
    → any (text_eq x) (all_models ms ups) ≡ (any (text_eq x) ms || serves x ups)
unfolding all_models
all_models-any x ms [] = ground arith
all_models-any x ms (u ∷ ups) =
    all_models-any x (add_models ms u.models) ups
    ∙ rw (add_models-any x ms u.models)
        (sym (or_assoc (any (text_eq x) ms) (any (text_eq x) u.models) (serves x ups)))

all_models-IsDistinct :
    (ms : List Text) (ups : List UpstreamConfig) → IsDistinct ms → IsDistinct (all_models ms ups)
unfolding all_models
all_models-IsDistinct ms [] d = d
all_models-IsDistinct ms (u ∷ ups) d =
    all_models-IsDistinct (add_models ms u.models) ups (add_models-IsDistinct ms u.models d)

-- Where some upstream serves a model, the list names no model twice, and names a model exactly when
-- some upstream serves it.
pub list_models-served :
    (configs : List UpstreamConfig) (m x : Text)
    → serves m configs ≡ true
    → IsDistinct (list_models configs) × (any (text_eq x) (list_models configs) ≡ serves x configs)
list_models-served configs m x h =
    let same =
      list_models-some configs (all_models [] configs) refl m (all_models-any m [] configs ∙ h) in
    (
      subst IsDistinct (sym same) (all_models-IsDistinct [] configs tt),
      ap (any (text_eq x)) same ∙ all_models-any x [] configs,
    )
