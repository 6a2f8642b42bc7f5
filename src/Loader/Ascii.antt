-- ===== src/Loader/Ascii.antt =====
-- The scan reads bytes and writes characters: it keeps a text without placeholders exactly when
-- the text is ASCII.
use rapid_gate.Base.{
  ℕ, ◌+◌, ◌≤◌, ◌<◌, ◌≡◌, ◌↔◌, refl, sym, ◌∙◌, ap, Option, some, List, [], ◌∷◌, ◌++◌, append-nil,
  length, Text, All, Free, arith, ltb, ltb→lt, Bool-cases, inl, inr,
}
use rapid_gate.Error.{Result, ok}
use rapid_gate.Loader.Expand.{utf8_char, utf8, expand_placeholders}
use rapid_gate.Loader.Template.{lit, expand-template}

abbrev pub IsAscii : Text → Type 0
IsAscii = All (λ c. c < 128)

utf8-ascii : (s : Text) → IsAscii s → utf8 s ≡ s
unfolding utf8
utf8-ascii [] h = refl
utf8-ascii (c ∷ s) (a, h) = ground (arith, utf8-ascii s h)

-- a character takes at least one byte, and one byte only if it is ASCII
utf8_char-length : (c : ℕ) (t : List ℕ) → length t + 1 ≤ length (utf8_char c ++ t)
unfolding utf8_char
utf8_char-length c t = ground arith

utf8-length : (s : Text) → length s ≤ length (utf8 s)
unfolding utf8
utf8-length [] = omega arith
utf8-length (c ∷ s) = omega (arith, utf8-length s, utf8_char-length c (utf8 s))

utf8_char-wide : (c : ℕ) (t : List ℕ) → 128 ≤ c → length t + 2 ≤ length (utf8_char c ++ t)
unfolding utf8_char
utf8_char-wide c t h = ground arith

utf8-eq : (s : Text) → length (utf8 s) ≤ length s → IsAscii s
unfolding utf8
utf8-eq [] h = tt
utf8-eq (c ∷ s) h = elim (Bool-cases (ltb c 128)) [
  | inl e ↦ (ltb→lt c 128 e, utf8-eq s (omega (arith, utf8_char-length c (utf8 s))))
  | inr e ↦
      let wide : 128 ≤ c = ground arith in
      absurd (omega (arith, utf8_char-wide c (utf8 s) wide, utf8-length s))
]

utf8-eq_iff : (s : Text) → (utf8 s ≡ s) ↔ IsAscii s
utf8-eq_iff s = ((λ e. utf8-eq s (omega (arith, ap length e))), utf8-ascii s)

-- A text with no "$" expands to its bytes read as characters: to itself exactly if it is ASCII.
pub expand-IsAscii :
    (env : List ℕ → Option Text) (input : Text)
    → Free b'$' (utf8 input)
    → (expand_placeholders env input ≡ some (ok input)) ↔ IsAscii input
expand-IsAscii env input h =
    let once =
      expand-template env input (lit (utf8 input) ∷ []) (h, tt) (sym (append-nil (utf8 input))) in
    (
      (λ e. (utf8-eq_iff input).0 (expanded_inj (sym once ∙ e))),
      (λ a. once ∙ ap (λ s. some (ok s)) ((utf8-eq_iff input).1 a)),
    )
  where
    expanded_inj : {s t : Text} → ◌≡◌ {A = Option (Result Text)} (some (ok s)) (some (ok t)) → s ≡ t
    expanded_inj e = cc
