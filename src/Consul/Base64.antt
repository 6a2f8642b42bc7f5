-- ===== src/Consul/Base64.antt =====
-- The decoder of src/service/config_center/consul.rs against an encoder by the groups of RFC 4648.
use rapid_gate.Base.{
  ℕ, zero, suc, ◌+◌, ◌-◌, ◌*◌, ◌/◌, ◌%◌, ◌^◌, ◌<◌, ◌==◌, ==_iff, ◌&&◌, leb, ltb, Bool, true, false,
  Bool-cases, Option, none, some, List, [], ◌∷◌, All, is_empty, map, ◌++◌, Text, trim_end_by, ◌≡◌,
  refl, ap, ◌∙◌, arith, inl, inr, if◌then◌else◌,
}
use rapid_gate.Base.Maybe.{◌>>=◌}
use rapid_gate.Consul.{alphabet, position, decode_from, base64_decode}

-- the character of a group of six bits
abbrev pub letter : ℕ → ℕ
letter d =
    if ltb d 26
    then b'A' + d
    else if ltb d 52
    then b'a' + (d - 26)
    else if ltb d 62
    then b'0' + (d - 52)
    else if d == 62
    then b'+'
    else b'/'

-- RFC 4648, section 4: three bytes are four characters, and a group that is not full is padded
unfoldable pub encode : List ℕ → Text
encode [] = []
encode (a ∷ []) = letter (a / 4) ∷ letter (a % 4 * 16) ∷ b'=' ∷ b'=' ∷ []
encode (a ∷ b ∷ []) =
    letter (a / 4) ∷ letter (a % 4 * 16 + b / 16) ∷ letter (b % 16 * 4) ∷ b'=' ∷ []
encode (a ∷ b ∷ c ∷ s) =
    letter (a / 4)
    ∷ letter (a % 4 * 16 + b / 16)
    ∷ letter (b % 16 * 4 + c / 64)
    ∷ letter (c % 64)
    ∷ encode s

-- a test of the numbers below a bound
abbrev below : ℕ → (ℕ → Bool) → Bool
below zero p = true
below (suc n) p = p n && below n p

below-at : (n : ℕ) (p : ℕ → Bool) (d : ℕ) → below n p ≡ true → d < n → p d ≡ true
below-at zero p d h lt = absurd (omega arith)
below-at (suc n) p d h lt = elim (Bool-cases (d == n)) [
  | inl e ↦ rw ((==_iff d n).0 e) (ground (arith, h))
  | inr e ↦ below-at n p d (ground (arith, h)) (ground arith)
]

abbrev is_some : Option ℕ → ℕ → Bool
is_some none d = false
is_some (some n) d = n == d

is_some_eq : (o : Option ℕ) (d : ℕ) → is_some o d ≡ true → o ≡ some d
is_some_eq none d h = cc
is_some_eq (some n) d h = ap some ((==_iff n d).0 h)

letters : below 64 (λ d. is_some (position (letter d) alphabet) d) ≡ true
unfolding position
letters = refl

position-letter : (d : ℕ) → d < 64 → position (letter d) alphabet ≡ some d
position-letter d h =
    is_some_eq _ d (below-at 64 (λ n. is_some (position (letter n) alphabet) n) d letters h)

trim-letter :
    (d : ℕ) (s : Text)
    → trim_end_by (λ c. c == b'=') (letter d ∷ s) ≡ letter d ∷ trim_end_by (λ c. c == b'=') s
unfolding trim_end_by
trim-letter d s = ground arith

-- a digit that completes no byte, and one that does
module _ (s : Text) (u bits d : ℕ) (h : d < 64) where
  decode_more :
      (v : ℕ)
      → leb 8 (bits + 6) ≡ false
      → u * 64 % 2 ^ 32 + d ≡ v
      → decode_from u bits (letter d ∷ s) ≡ decode_from v (bits + 6) s
  unfolding decode_from
  decode_more v more e =
      rw (position-letter d h, decode_from) (rw more (ap (λ n. decode_from n (bits + 6) s) e))

  decode_out :
      (x y : ℕ)
      → leb 8 (bits + 6) ≡ true
      → (u * 64 % 2 ^ 32 + d) / 2 ^ (bits + 6 - 8) % 256 ≡ x
      → (u * 64 % 2 ^ 32 + d) % 2 ^ (bits + 6 - 8) ≡ y
      → decode_from u bits (letter d ∷ s)
        ≡ (decode_from y (bits + 6 - 8) s >>= λ rest. some (x ∷ rest))
  unfolding decode_from
  decode_out x y out e f =
      rw (position-letter d h, decode_from)
        (rw out (λ i. decode_from (f i) (bits + 6 - 8) s >>= λ rest. some (e i ∷ rest)))

module _ (s : Text) where
  decode_first : (a : ℕ) → a < 256 → decode_from 0 0 (letter (a / 4) ∷ s) ≡ decode_from (a / 4) 6 s
  decode_first a h = decode_more s 0 0 (a / 4) (omega arith) (a / 4) refl (omega arith)

  -- the second character, which completes `a` and has the upper half of `b`
  decode_second :
      (a m : ℕ)
      → a < 256
      → m < 16
      → decode_from (a / 4) 6 (letter (a % 4 * 16 + m) ∷ s)
        ≡ (decode_from m 4 s >>= λ rest. some (a ∷ rest))
  decode_second a m h k =
      decode_out s (a / 4) 6 (a % 4 * 16 + m) (omega arith) a m refl (omega arith) (omega arith)

  decode_third :
      (b m : ℕ)
      → b < 256
      → m < 4
      → decode_from (b / 16) 4 (letter (b % 16 * 4 + m) ∷ s)
        ≡ (decode_from m 2 s >>= λ rest. some (b ∷ rest))
  decode_third b m h k =
      decode_out s (b / 16) 4 (b % 16 * 4 + m) (omega arith) b m refl (omega arith) (omega arith)

  decode_fourth :
      (c : ℕ)
      → c < 256
      → decode_from (c / 64) 2 (letter (c % 64) ∷ s)
        ≡ (decode_from 0 0 s >>= λ rest. some (c ∷ rest))
  decode_fourth c h =
      decode_out s (c / 64) 2 (c % 64) (omega arith) c 0 refl (omega arith) (omega arith)

abbrev pad : ℕ → Bool
pad c = c == b'='

-- a byte in front of what is decoded
abbrev onto : ℕ → Option (List ℕ) → Option (List ℕ)
onto x o = o >>= λ rest. some (x ∷ rest)

decode_group :
    (a b c : ℕ) (s : Text) (rest : List ℕ)
    → a < 256
    → b < 256
    → c < 256
    → decode_from 0 0 s ≡ some rest
    → decode_from 0 0 (
        letter (a / 4)
        ∷ letter (a % 4 * 16 + b / 16)
        ∷ letter (b % 16 * 4 + c / 64)
        ∷ letter (c % 64)
        ∷ s)
      ≡ some (a ∷ b ∷ c ∷ rest)
decode_group a b c s rest ha hb hc e =
    decode_first _ a ha
    ∙ decode_second _ a (b / 16) ha (omega arith)
    ∙ ap (onto a) (
        decode_third _ b (c / 64) hb (omega arith)
        ∙ ap (onto b) (decode_fourth s c hc ∙ ap (onto c) e))

add_zero : (n : ℕ) → n ≡ n + 0
add_zero n = omega arith

decode_pair :
    (a b : ℕ)
    → a < 256
    → b < 256
    → decode_from 0 0 (letter (a / 4) ∷ letter (a % 4 * 16 + b / 16) ∷ letter (b % 16 * 4) ∷ [])
      ≡ some (a ∷ b ∷ [])
unfolding decode_from
decode_pair a b ha hb =
    decode_first (letter (a % 4 * 16 + b / 16) ∷ letter (b % 16 * 4) ∷ []) a ha
    ∙ decode_second (letter (b % 16 * 4) ∷ []) a (b / 16) ha (omega arith)
    ∙ ap (onto a) (
        ap (λ n. decode_from (b / 16) 4 (letter n ∷ [])) (add_zero (b % 16 * 4))
        ∙ decode_third [] b 0 hb (omega arith))

decode_single :
    (a : ℕ) → a < 256 → decode_from 0 0 (letter (a / 4) ∷ letter (a % 4 * 16) ∷ []) ≡ some (a ∷ [])
unfolding decode_from
decode_single a ha =
    decode_first (letter (a % 4 * 16) ∷ []) a ha
    ∙ ap (λ n. decode_from (a / 4) 6 (letter n ∷ [])) (add_zero (a % 4 * 16))
    ∙ decode_second [] a 0 ha (omega arith)

trim-letters :
    (ds : List ℕ) (s : Text)
    → trim_end_by pad (map letter ds ++ s) ≡ map letter ds ++ trim_end_by pad s
trim-letters [] s = refl
trim-letters (d ∷ ds) s =
    trim-letter d (map letter ds ++ s) ∙ ap (λ t. letter d ∷ t) (trim-letters ds s)

-- Bytes that are encoded as RFC 4648 says, with padding, are decoded to themselves.
pub base64_decode-encode :
    (bytes : List ℕ) → All (λ b. b < 256) bytes → base64_decode (encode bytes) ≡ some bytes
unfolding base64_decode encode decode_from trim_end_by is_empty
base64_decode-encode [] h = refl
base64_decode-encode (a ∷ []) (ha, _) =
    ap (decode_from 0 0) (trim-letters (a / 4 ∷ a % 4 * 16 ∷ []) (b'=' ∷ b'=' ∷ []))
    ∙ decode_single a ha
base64_decode-encode (a ∷ b ∷ []) (ha, (hb, _)) =
    ap (decode_from 0 0)
      (trim-letters (a / 4 ∷ (a % 4 * 16 + b / 16) ∷ b % 16 * 4 ∷ []) (b'=' ∷ []))
    ∙ decode_pair a b ha hb
base64_decode-encode (a ∷ b ∷ c ∷ bytes) (ha, (hb, (hc, h))) =
    ap (decode_from 0 0) (
      trim-letters (a / 4 ∷ (a % 4 * 16 + b / 16) ∷ (b % 16 * 4 + c / 64) ∷ c % 64 ∷ [])
        (encode bytes))
    ∙ decode_group a b c (trim_end_by pad (encode bytes)) bytes ha hb hc
        (base64_decode-encode bytes h)
