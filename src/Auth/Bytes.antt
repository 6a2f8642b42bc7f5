-- ===== src/Auth/Bytes.antt =====
-- The UTF-8 bytes of a text: their number, and that they determine it.
use rapid_gate.Base.{
  ℕ, ◌<◌, List, [], ◌∷◌, ◌++◌, length, length-append, All, Text, len, len_utf8, ◌≡◌, refl, ◌∙◌, sym,
  arith,
}
use rapid_gate.Loader.Expand.{utf8, utf8_char}

length-utf8_char : (c : ℕ) → length (utf8_char c) ≡ len_utf8 c
unfolding utf8_char
length-utf8_char c = ground arith

pub length-utf8 : (s : Text) → length (utf8 s) ≡ len s
unfolding utf8 len
length-utf8 [] = refl
length-utf8 (c ∷ s) =
    length-append (utf8_char c) (utf8 s) ∙ omega (arith, length-utf8_char c, length-utf8 s)

-- every character of the text is below the end of Unicode
abbrev pub IsScalars : Text → Type 0
IsScalars s = All (λ c. c < 0x110000) s

utf8_char-prefix :
    (c d : ℕ) (s t : List ℕ)
    → c < 0x110000
    → d < 0x110000
    → (utf8_char c ++ s) ≡ (utf8_char d ++ t)
    → (c ≡ d) × (s ≡ t)
unfolding utf8_char
utf8_char-prefix c d s t hc hd e = ground arith

utf8_char-ne-nil : (c : ℕ) (s : List ℕ) → (utf8_char c ++ s) ≡ [] → ⊥
unfolding utf8_char
utf8_char-ne-nil c s e = ground arith

-- Texts of the same bytes are the same.
pub utf8_injective : (s t : Text) → IsScalars s → IsScalars t → utf8 s ≡ utf8 t → s ≡ t
unfolding utf8
utf8_injective [] [] hs ht e = refl
utf8_injective [] (d ∷ t) hs ht e = absurd (utf8_char-ne-nil d (utf8 t) (sym e))
utf8_injective (c ∷ s) [] hs ht e = absurd (utf8_char-ne-nil c (utf8 s) e)
utf8_injective (c ∷ s) (d ∷ t) (hc, hs) (hd, ht) e =
    let (same, rest) = utf8_char-prefix c d (utf8 s) (utf8 t) hc hd e in
    let tails = utf8_injective s t hs ht rest in cc
