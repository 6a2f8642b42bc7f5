-- ===== src/Auth/Credential.antt =====
-- The comparison of credentials, on the bytes of the texts.
use rapid_gate.Base.{
  ℕ, ◌==◌, ==_iff, Bool, true, false, not, List, [], ◌∷◌, any, length, Text, len, ◌≡◌, refl, sym,
  ap, ◌∙◌, ◌↔◌, ◌||◌, inl, inr, arith, if◌then◌else◌, Bool-cases, subst,
}
use rapid_gate.Loader.Expand.{utf8}
use rapid_gate.Routing.Order.{In}
use rapid_gate.Auth.{const_eq, verdict, pass, unauthorized}
use rapid_gate.Auth.Bytes.{length-utf8}

-- what the documentation of `ConstantTimeEq` says of slices
abbrev pub IsEquality : (List ℕ → List ℕ → Bool) → Type 0
IsEquality ct_eq = (xs ys : List ℕ) → (ct_eq xs ys ≡ true) ↔ (xs ≡ ys)

-- the same bytes
abbrev pub SameBytes : Text → Text → Type 0
SameBytes s t = utf8 s ≡ utf8 t

pub len-SameBytes : (s t : Text) → SameBytes s t → (len s == len t) ≡ true
len-SameBytes s t e =
    (==_iff (len s) (len t)).1 (sym (length-utf8 s) ∙ (ap length e ∙ length-utf8 t))

-- a key of the list has the bytes of the credential
abbrev pub IsKnown : Text → List Text → Type 0
IsKnown key keys = (k : Text) × In k keys × SameBytes key k

module _ (ct_eq : List ℕ → List ℕ → Bool) (eq : IsEquality ct_eq) where
  pub const_eq_iff : (s t : Text) → (const_eq ct_eq s t ≡ true) ↔ SameBytes s t
  unfolding const_eq
  const_eq_iff s t = (
    (λ h. (eq (utf8 s) (utf8 t)).0 (second (len s == len t) (ct_eq (utf8 s) (utf8 t)) h)),
    (λ e.
        both (len s == len t) (ct_eq (utf8 s) (utf8 t)) (len-SameBytes s t e)
          ((eq (utf8 s) (utf8 t)).1 e)),
  )
    where
      second : (a b : Bool) → (if not a then false else b) ≡ true → b ≡ true
      second a b h = ground arith

      both : (a b : Bool) → a ≡ true → b ≡ true → (if not a then false else b) ≡ true
      both a b h k = ground arith

  pub any-IsKnown :
      (key : Text) (keys : List Text)
      → (any (λ k. const_eq ct_eq key k) keys ≡ true) ↔ IsKnown key keys
  any-IsKnown key [] = ((λ h. cc), (λ h. elim h.1 [ ]))
  any-IsKnown key (k ∷ ks) =
      let here = const_eq_iff key k in
      let there = any-IsKnown key ks in
      (
        (λ h. elim (Bool-cases (const_eq ct_eq key k)) [
          | inl e ↦ (k, inl refl, here.0 e)
          | inr e ↦
              let (k', i, s) = there.0 (or-right (const_eq ct_eq key k) _ e h) in (k', inr i, s)
        ]),
        (λ (k', i, s). elim i [
          | inl same ↦ or-left (const_eq ct_eq key k) _ (here.1 (subst (SameBytes key) same s))
          | inr later ↦ or-later (const_eq ct_eq key k) _ (there.1 (k', later, s))
        ]),
      )
    where
      or-right : (a b : Bool) → a ≡ false → (a || b) ≡ true → b ≡ true
      or-right a b h k = ground arith

      or-left : (a b : Bool) → a ≡ true → (a || b) ≡ true
      or-left a b h = ground arith

      or-later : (a b : Bool) → b ≡ true → (a || b) ≡ true
      or-later a b h = ground arith

  pub verdict_iff :
      (key : Text) (keys : List Text) → (verdict ct_eq key keys ≡ pass) ↔ IsKnown key keys
  verdict_iff key keys =
      let known = any-IsKnown key keys in
      ((λ h. known.0 (passes (any (λ k. const_eq ct_eq key k) keys) h)), (λ h. rw (known.1 h) refl))
    where
      passes : (b : Bool) → (if b then pass else unauthorized) ≡ pass → b ≡ true
      passes true h = refl
      passes false h = cc
