-- ===== src/Base/Str.antt =====
-- A Rust `str` as the list of its Unicode scalar values, with the operations of `str` that the
-- gateway calls.
use Prim.Native.Nat.{ℕ, zero, suc, ◌+◌, ◌-◌}
use Prim.Native.Char.{code}
use Prim.Native.String.{String}
use mathlib.Core.Path.{◌≡◌, refl}
use mathlib.Core.Logic.{◌↔◌}
use mathlib.Core.Bool.{Bool, true, false, ◌&&◌, ◌||◌}
use mathlib.Core.List.{List, [], ◌∷◌, ◌++◌}
use mathlib.Core.Option.{Option, none, some}
use native.Mathlib.Omega.{arith}
use rapid_gate.Base.Lists.{length}
use rapid_gate.Base.Tests.{ltb, leb, ◌==◌, if◌then◌else◌}

abbrev pub Text : Type 0
Text = List ℕ

-- The text that a quoted literal denotes.
abbrev pub codes : String → Text
codes String.[] = []
codes (String.◌∷◌ c s) = code c ∷ codes s

unfoldable pub text_eq : Text → Text → Bool
text_eq [] [] = true
text_eq (c ∷ s) (d ∷ t) = c == d && text_eq s t
text_eq _ _ = false

pub text_eq_iff : (s t : Text) → (text_eq s t ≡ true) ↔ (s ≡ t)
unfolding text_eq
text_eq_iff [] [] = (λ _. refl, λ _. refl)
text_eq_iff (c ∷ s) (d ∷ t) = ground (arith, text_eq_iff s t)
text_eq_iff [] (d ∷ t) = (λ h. cc, λ h. cc)
text_eq_iff (c ∷ s) [] = (λ h. cc, λ h. cc)

pub text_eq_refl : (s : Text) → text_eq s s ≡ true
text_eq_refl s = (text_eq_iff s s).1 refl

-- `str::is_empty`
unfoldable pub is_empty : Text → Bool
is_empty [] = true
is_empty (c ∷ s) = false

-- `str::len` counts the bytes of the UTF-8 encoding.
abbrev pub len_utf8 : ℕ → ℕ
len_utf8 c = if ltb c 128 then 1 else if ltb c 2048 then 2 else if ltb c 65536 then 3 else 4

unfoldable pub len : Text → ℕ
len [] = 0
len (c ∷ s) = len_utf8 c + len s

-- `str::starts_with`
unfoldable pub starts_with : Text → Text → Bool
starts_with [] s = true
starts_with (p ∷ ps) [] = false
starts_with (p ∷ ps) (c ∷ s) = p == c && starts_with ps s

-- `str::strip_prefix`
unfoldable pub strip_prefix : Text → Text → Option Text
strip_prefix [] s = some s
strip_prefix (p ∷ ps) [] = none
strip_prefix (p ∷ ps) (c ∷ s) = let rest = strip_prefix ps s in if p == c then rest else none

-- `str::ends_with` of one character
unfoldable pub ends_with : ℕ → Text → Bool
ends_with d [] = false
ends_with d (c ∷ []) = c == d
ends_with d (c ∷ e ∷ s) = ends_with d (e ∷ s)

-- `str::split(char)`: always at least one part
unfoldable pub push_head : ℕ → List Text → List Text
push_head c [] = (c ∷ []) ∷ []
push_head c (x ∷ xs) = (c ∷ x) ∷ xs

unfoldable pub split : ℕ → Text → List Text
unfolding push_head
split d [] = [] ∷ []
split d (c ∷ s) = let rest = split d s in if c == d then [] ∷ rest else push_head c rest

-- `str::split(&str)`: the parts between the matches of `sep`, found from the left without overlap;
-- `skip` counts the characters of a match that are still to be dropped
unfoldable pub split_skip : Text → ℕ → Text → List Text
unfolding push_head starts_with
split_skip sep skip [] = [] ∷ []
split_skip sep (suc skip) (c ∷ s) = split_skip sep skip s
split_skip sep zero (c ∷ s) =
    let matched = split_skip sep (length sep - 1) s in
    let rest = split_skip sep 0 s in
    if starts_with sep (c ∷ s) then [] ∷ matched else push_head c rest

unfoldable pub split_str : Text → Text → List Text
unfolding split_skip
split_str sep s = split_skip sep 0 s

-- `[&str]::join` with a one-character separator
unfoldable pub join : ℕ → List Text → Text
join d [] = []
join d (x ∷ []) = x
join d (x ∷ y ∷ ys) = x ++ (d ∷ join d (y ∷ ys))

-- `trim_start_matches(char)` and `trim_end_matches(char)`, over a test on characters
unfoldable pub trim_start_by : (ℕ → Bool) → Text → Text
trim_start_by p [] = []
trim_start_by p (c ∷ s) = let rest = trim_start_by p s in if p c then rest else c ∷ s

unfoldable pub trim_end_by : (ℕ → Bool) → Text → Text
unfolding is_empty
trim_end_by p [] = []
trim_end_by p (c ∷ s) = let rest = trim_end_by p s in if p c && is_empty rest then [] else c ∷ rest

-- `char::is_whitespace`: the Unicode property White_Space
unfoldable pub is_whitespace : ℕ → Bool
is_whitespace c =
    (leb 0x9 c && leb c 0xd)
    || c == 0x20
    || c == 0x85
    || c == 0xa0
    || c == 0x1680
    || (leb 0x2000 c && leb c 0x200a)
    || c == 0x2028
    || c == 0x2029
    || c == 0x202f
    || c == 0x205f
    || c == 0x3000

-- `str::trim`
unfoldable pub trim : Text → Text
unfolding trim_start_by trim_end_by is_whitespace
trim s = trim_end_by is_whitespace (trim_start_by is_whitespace s)

-- `u8::to_ascii_uppercase`, `u8::to_ascii_lowercase`
unfoldable pub ascii_upper : ℕ → ℕ
ascii_upper c = if leb b'a' c && leb c b'z' then c - 32 else c

unfoldable pub ascii_lower : ℕ → ℕ
ascii_lower c = if leb b'A' c && leb c b'Z' then c + 32 else c

-- `str::eq_ignore_ascii_case`
unfoldable pub eq_ignore_ascii_case : Text → Text → Bool
unfolding ascii_lower
eq_ignore_ascii_case [] [] = true
eq_ignore_ascii_case (c ∷ s) (d ∷ t) = ascii_lower c == ascii_lower d && eq_ignore_ascii_case s t
eq_ignore_ascii_case _ _ = false

-- no character of the text is `d`
abbrev pub Free : ℕ → Text → Type 0
Free d [] = Unit
Free d (c ∷ s) = ((c == d) ≡ false) × Free d s
