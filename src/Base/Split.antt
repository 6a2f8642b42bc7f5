-- ===== src/Base/Split.antt =====
-- `split` and `join` are inverse on parts that hold no separator.
use Prim.Native.Nat.{ℕ}
use mathlib.Core.Path.{◌≡◌, refl}
use mathlib.Core.Logic.{inl, inr}
use mathlib.Core.Bool.{false}
use mathlib.Core.List.{List, [], ◌∷◌, ◌++◌}
use native.Mathlib.Omega.{arith}
use rapid_gate.Base.Tests.{◌==◌, ==_iff, Bool-cases}
use rapid_gate.Base.Lists.{All}
use rapid_gate.Base.Str.{Text, split, push_head, join, Free}

push_head-Free :
    (d c : ℕ) (xs : List Text) → (c == d) ≡ false → All (Free d) xs → All (Free d) (push_head c xs)
unfolding push_head
push_head-Free d c [] n h = ((n, tt), tt)
push_head-Free d c (x ∷ xs) n (h, hs) = ((n, h), hs)

pub split-Free : (d : ℕ) (s : Text) → All (Free d) (split d s)
unfolding split
split-Free d [] = (tt, tt)
split-Free d (c ∷ s) = ground (arith, split-Free d s, push_head-Free d c (split d s))

-- there is at least one part
pub split-ne_nil : (d : ℕ) (s : Text) → (x : Text) × (xs : List Text) × (split d s ≡ x ∷ xs)
unfolding split push_head
split-ne_nil d [] = ([], [], refl)
split-ne_nil d (c ∷ s) = elim (Bool-cases (c == d)) [
  | inl sep ↦ ([], split d s, rw sep refl)
  | inr other ↦ let (x, xs, parts) = split-ne_nil d s in (c ∷ x, xs, rw (other, parts) refl)
]

pub split_of_Free : (d : ℕ) (x : Text) → Free d x → split d x ≡ x ∷ []
unfolding split
split_of_Free d [] h = refl
split_of_Free d (c ∷ x) (n, h) = rw (n, split_of_Free d x h) refl

pub split-append_Free : (d : ℕ) (x s : Text) → Free d x → split d (x ++ (d ∷ s)) ≡ x ∷ split d s
unfolding split
split-append_Free d [] s h = rw ((==_iff d d).1 refl) refl
split-append_Free d (c ∷ x) s (n, h) = rw (n, split-append_Free d x s h) refl

pub split-join :
    (d : ℕ) (x : Text) (xs : List Text) → All (Free d) (x ∷ xs) → split d (join d (x ∷ xs)) ≡ x ∷ xs
unfolding join
split-join d x [] (h, _) = split_of_Free d x h
split-join d x (y ∷ ys) (h, hs) =
    rw (split-append_Free d x (join d (y ∷ ys)) h) (rw (split-join d y ys hs))
