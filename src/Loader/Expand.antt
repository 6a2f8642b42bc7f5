-- ===== src/Loader/Expand.antt =====
-- `expand_placeholders`: the scan for `${VAR}` over the bytes of the configuration text.
use rapid_gate.Base.{
  ℕ, zero, suc, ◌+◌, ◌/◌, ◌%◌, ltb, ◌==◌, ◌&&◌, Option, none, some, List, [], ◌∷◌, ◌++◌, length,
  Text, if◌then◌else◌,
}
use rapid_gate.Error.{config, Result, ok, err}

-- `str::as_bytes`: the UTF-8 encoding
unfoldable pub utf8_char : ℕ → List ℕ
utf8_char c =
    if ltb c 128
    then c ∷ []
    else if ltb c 2048
    then (192 + c / 64) ∷ (128 + c % 64) ∷ []
    else if ltb c 65536
    then (224 + c / 4096) ∷ (128 + c / 64 % 64) ∷ (128 + c % 64) ∷ []
    else (240 + c / 262144) ∷ (128 + c / 4096 % 64) ∷ (128 + c / 64 % 64) ∷ (128 + c % 64) ∷ []

unfoldable pub utf8 : Text → List ℕ
unfolding utf8_char
utf8 [] = []
utf8 (c ∷ s) = utf8_char c ++ utf8 s

-- `str::find('}')`: the bytes before the first "}" and those after it
unfoldable pub find_close : List ℕ → Option (List ℕ × List ℕ)
find_close [] = none
find_close (b ∷ bs) =
    let rest = find_close bs in
    if b == b'}'
    then some ([], bs)
    else elim rest [ none ↦ none | some (name, after) ↦ some (b ∷ name, after) ]

-- what stands at an index: a placeholder with its name and the bytes after it, or one byte
unfoldable pub placeholder : List ℕ → Option (List ℕ × List ℕ)
unfolding find_close
placeholder (d ∷ o ∷ bs) = if d == b'$' && o == b'{' then find_close bs else none
placeholder _ = none

-- The environment is given: the value of a variable, by the bytes of its name.
module _ (env : List ℕ → Option Text) where
  -- The `while` loop, with the bytes from index `i` on, and `out`. `bytes[i] as char` is the
  -- character whose code is the byte. `none` says that the fuel ran out.
  unfoldable pub expand_loop : ℕ → List ℕ → Text → Option (Result Text)
  unfolding placeholder
  expand_loop zero bytes out = none
  expand_loop (suc fuel) [] out = some (ok out)
  expand_loop (suc fuel) (b ∷ bs) out = elim (placeholder (b ∷ bs)) [
    | some (name, after) ↦ elim (env name) [
      | none ↦ some (err (config name))
      | some val ↦ expand_loop fuel after (out ++ val)
    ]
    | none ↦ expand_loop fuel bs (out ++ (b ∷ []))
  ]

  -- one round more than there are bytes is enough
  unfoldable pub expand_placeholders : Text → Option (Result Text)
  unfolding expand_loop utf8
  expand_placeholders input = expand_loop (suc (length (utf8 input))) (utf8 input) []
