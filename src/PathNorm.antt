-- ===== src/PathNorm.antt =====
-- Path normalisation: src/core/util/path.rs.
pub mod Clean
mod Tests
use rapid_gate.Base.{
  ℕ, Bool, true, false, ◌||◌, List, [], ◌∷◌, ◌++◌, Text, codes, text_eq, split, join, starts_with,
  is_empty, if◌then◌else◌,
}

abbrev pub slash : ℕ
slash = b'/'

-- `Vec::pop`, with its result dropped
abbrev pub pop_back : List Text → List Text
pop_back [] = []
pop_back (x ∷ []) = []
pop_back (x ∷ y ∷ ys) = x ∷ pop_back (y ∷ ys)

-- one round of the loop of `normalize`
unfoldable pub push_segment : List Text → Text → List Text
unfolding text_eq
push_segment out seg =
    if text_eq seg (codes "") || text_eq seg (codes ".")
    then out
    else if text_eq seg (codes "..")
    then pop_back out
    else out ++ (seg ∷ [])

unfoldable pub resolve : List Text → List Text → List Text
unfolding push_segment
resolve out [] = out
resolve out (seg ∷ segs) = resolve (push_segment out seg) segs

-- the text that `normalize` builds from the segments that are left
unfoldable pub render : Bool → List Text → Text
unfolding join is_empty
render leading_slash out =
    let result = (if leading_slash then slash ∷ [] else []) ++ join slash out in
    if is_empty result then slash ∷ [] else result

unfoldable pub normalize : Text → Text
unfolding render resolve split starts_with
normalize input = render (starts_with (codes "/") input) (resolve [] (split slash input))
