-- ===== src/Platform.antt =====
-- What the gateway takes from outside: the regex crate, and the Unicode case table of the
-- standard library. The laws that a theorem needs are hypotheses of that theorem.
use mathlib.Core.List.{[], ◌∷◌, ◌++◌}
use rapid_gate.Base.{ℕ, Bool, Option, some, Text, text_eq, ascii_upper}

pub record Platform : Type 1 where
  -- `regex::Regex`, `Regex::new` (`none` for an invalid pattern) and `Regex::is_match`
  pub Regex : Type 0
  pub regex_new : Text → Option Regex
  pub is_match : Regex → Text → Bool
  -- `char::to_uppercase`, which may yield several characters
  pub upper : ℕ → Text

module _ (p : Platform) where
  -- `str::to_uppercase`
  unfoldable pub to_uppercase : Text → Text
  to_uppercase [] = []
  to_uppercase (c ∷ s) = p.upper c ++ to_uppercase s

-- A platform whose case table is that of ASCII and whose regular expressions are plain texts.
abbrev pub ascii_platform : Platform
ascii_platform = record {
  Regex = Text;
  regex_new = λ s. some s;
  is_match = text_eq;
  upper = λ c. ascii_upper c ∷ [];
}
