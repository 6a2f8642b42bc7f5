-- ===== src/Auth/Keys.antt =====
-- The set of API keys: `verify` after `register` and `unregister`.
use rapid_gate.Base.{
  ℕ, ◌==◌, ◌||◌, Bool, true, false, not, List, [], ◌∷◌, any, keep, All, Text, codes, len, text_eq,
  text_eq_iff, ◌≡◌, refl, sym, subst, ◌∙◌, ◌↔◌, ◌⊎◌, inl, inr, arith, Bool-cases, Bool-clash,
  if◌then◌else◌,
}
use rapid_gate.Error.{auth, Result, ok, err}
use rapid_gate.Loader.Expand.{utf8}
use rapid_gate.Auth.{Authenticator, register, unregister, verify_from, verify}
use rapid_gate.Auth.Credential.{IsEquality, SameBytes, len-SameBytes}
use rapid_gate.Auth.Bytes.{IsScalars, utf8_injective}

-- a key of the list has the bytes of the credential
abbrev pub Holds : List Text → Text → Type 0
Holds [] credential = ⊥
Holds (k ∷ ks) credential = SameBytes k credential ⊎ Holds ks credential

Holds-In :
    (keys : List Text) (key c : Text)
    → any (text_eq key) keys ≡ true
    → SameBytes key c
    → Holds keys c
Holds-In [] key c h s = cc
Holds-In (k ∷ ks) key c h s = elim (Bool-cases (text_eq key k)) [
  | inl e ↦ inl (subst (λ t. SameBytes t c) ((text_eq_iff key k).0 e) s)
  | inr e ↦ inr (Holds-In ks key c (later (text_eq key k) (any (text_eq key) ks) e h) s)
]
  where
    later : (a b : Bool) → a ≡ false → (a || b) ≡ true → b ≡ true
    later a b e h = ground arith

Holds-keep :
    (keys : List Text) (key c : Text)
    → IsScalars key
    → All IsScalars keys
    → Holds (keep (λ k. not (text_eq key k)) keys) c ↔ (Holds keys c × (SameBytes key c → ⊥))
Holds-keep [] key c sk sks = ((λ h. absurd h), (λ h. absurd h.0))
Holds-keep (k ∷ ks) key c sk (s, ss) =
    let rest = Holds-keep ks key c sk ss in
    elim (Bool-cases (text_eq key k)) [
      | inl e ↦ rw e (
        (λ h. (inr (rest.0 h).0, (rest.0 h).1)),
        (λ (h, n). elim h [
          | inl same ↦ absurd (n (subst (λ t. SameBytes t c) (sym ((text_eq_iff key k).0 e)) same))
          | inr later ↦ rest.1 (later, n)
        ]),
      )
      | inr e ↦ rw e (
        (λ h. elim h [
          | inl same ↦ (inl same, λ m. differs k e s same m)
          | inr later ↦ (inr (rest.0 later).0, (rest.0 later).1)
        ]),
        (λ (h, n). elim h [ inl same ↦ inl same | inr later ↦ inr (rest.1 (later, n)) ]),
      )
    ]
  where
    differs : (k : Text) → text_eq key k ≡ false → IsScalars k → SameBytes k c → SameBytes key c → ⊥
    differs k e s same m =
        Bool-clash (text_eq key k)
          ((text_eq_iff key k).1 (utf8_injective key k sk s (m ∙ sym same))) e

module _ (ct_eq : List ℕ → List ℕ → Bool) where
  verify_from-set : (keys : List Text) (c : Text) → verify_from ct_eq 1 keys c ≡ 1
  unfolding verify_from
  verify_from-set [] c = refl
  verify_from-set (k ∷ ks) c = ground (arith, verify_from-set ks c)

  verify_from-hit :
      (k : Text) (ks : List Text) (c : Text)
      → (len k == len c) ≡ true
      → ct_eq (utf8 k) (utf8 c) ≡ true
      → verify_from ct_eq 0 (k ∷ ks) c ≡ 1
  unfolding verify_from
  verify_from-hit k ks c e f = rw (e, f) (verify_from-set ks c)

  verify_from-miss :
      (k : Text) (ks : List Text) (c : Text)
      → ct_eq (utf8 k) (utf8 c) ≡ false
      → verify_from ct_eq 0 (k ∷ ks) c ≡ verify_from ct_eq 0 ks c
  unfolding verify_from
  verify_from-miss k ks c f = elim (Bool-cases (len k == len c)) [
    | inl e ↦ rw (e, f) refl
    | inr e ↦ rw e refl
  ]

  verify_from_iff :
      (keys : List Text) (c : Text)
      → IsEquality ct_eq
      → (verify_from ct_eq 0 keys c ≡ 1) ↔ Holds keys c
  verify_from_iff [] c eq =
      unfold verify_from in ((λ h. absurd (omega (arith, h))), (λ h. absurd h))
  verify_from_iff (k ∷ ks) c eq =
      let same = eq (utf8 k) (utf8 c) in
      let rest = verify_from_iff ks c eq in
      elim (Bool-cases (ct_eq (utf8 k) (utf8 c))) [
        | inl f ↦
            ((λ h. inl (same.0 f)), (λ h. verify_from-hit k ks c (len-SameBytes k c (same.0 f)) f))
        | inr f ↦
            let step = verify_from-miss k ks c f in
            (
              (λ h. inr (rest.0 (sym step ∙ h))),
              (λ h. elim h [
                | inl s ↦ absurd (Bool-clash (ct_eq (utf8 k) (utf8 c)) (same.1 s) f)
                | inr later ↦ step ∙ rest.1 later
              ]),
            )
      ]

  verify_iff :
      (a : Authenticator) (c : Text)
      → IsEquality ct_eq
      → (verify ct_eq a c ≡ ok tt) ↔ Holds a.keys c
  unfolding verify
  verify_iff a c eq =
      let loop = verify_from_iff a.keys c eq in
      ((λ h. loop.0 (flagged (verify_from ct_eq 0 a.keys c) h)), (λ h. rw (loop.1 h) refl))
    where
      flagged :
          (n : ℕ)
          → ◌≡◌ {A = Result (Unit {0})}
              (if n == 1 then ok tt else err (auth (codes "invalid or missing api key")))
              (ok tt)
          → n ≡ 1
      flagged n h = ground arith

  Holds-register :
      (a : Authenticator) (key c : Text)
      → Holds (register key a).keys c ↔ (SameBytes key c ⊎ Holds a.keys c)
  unfolding register
  Holds-register a key c = elim (Bool-cases (any (text_eq key) a.keys)) [
    | inl e ↦
        rw e ((λ h. inr h), (λ h. elim h [ inl s ↦ Holds-In a.keys key c e s | inr there ↦ there ]))
    | inr e ↦ rw e ((λ h. h), (λ h. h))
  ]

  -- Where slices are compared for equality, registering a key admits exactly its bytes besides what
  -- was admitted before, and unregistering it admits what was admitted before except its bytes.
  pub verify-registered :
      (a : Authenticator) (key c : Text)
      → IsEquality ct_eq
      → IsScalars key
      → All IsScalars a.keys
      → ((verify ct_eq (register key a) c ≡ ok tt) ↔ (SameBytes key c ⊎ (verify ct_eq a c ≡ ok tt)))
        × ((verify ct_eq (unregister key a) c ≡ ok tt)
            ↔ ((verify ct_eq a c ≡ ok tt) × (SameBytes key c → ⊥)))
  unfolding unregister
  verify-registered a key c eq s ss =
      let before = verify_iff a c eq in
      let added = verify_iff (register key a) c eq in
      let removed = verify_iff (unregister key a) c eq in
      let more = Holds-register a key c in
      let fewer = Holds-keep a.keys key c s ss in
      (
        (
          (λ h. elim (more.0 (added.0 h)) [ inl e ↦ inl e | inr o ↦ inr (before.1 o) ]),
          (λ h. added.1 (more.1 (elim h [ inl e ↦ inl e | inr o ↦ inr (before.0 o) ]))),
        ),
        (
          (λ h. let k = fewer.0 (removed.0 h) in (before.1 k.0, k.1)),
          (λ (h, n). removed.1 (fewer.1 (before.0 h, n))),
        ),
      )
