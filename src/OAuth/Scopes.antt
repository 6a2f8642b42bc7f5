-- ===== src/OAuth/Scopes.antt =====
-- The cache key of a set of scopes: `build_cache_key` of src/core/auth/oauth2.rs, with the order on
-- `str` and the sort that it uses.
use rapid_gate.Base.{
  Bool, true, false, Text, ltb, ◌==◌, ◌||◌, ◌&&◌, join, List, [], ◌∷◌, ◌++◌, ◌≡◌, refl, ap, arith,
  if◌then◌else◌,
}
use mathlib.Core.List.{foldr, Perm}
use mathlib.Core.List.Perm

-- `str` is ordered by its bytes, and so by its characters.
unfoldable pub text_le : Text → Text → Bool
text_le [] t = true
text_le (c ∷ s) [] = false
text_le (c ∷ s) (d ∷ t) = ltb c d || (c == d && text_le s t)

-- `slice::sort`, which is stable; texts that compare equal are the same
unfoldable pub insert_sorted : Text → List Text → List Text
unfolding text_le
insert_sorted s [] = s ∷ []
insert_sorted s (t ∷ ts) =
    let rest = insert_sorted s ts in if text_le s t then s ∷ t ∷ ts else t ∷ rest

unfoldable pub sort : List Text → List Text
unfolding insert_sorted
sort = foldr insert_sorted []

unfoldable pub build_cache_key : Text → List Text → Text
unfolding sort join
build_cache_key client_id scopes = client_id ++ (b':' ∷ join b',' (sort scopes))

pub text_le_total : (s t : Text) → text_le s t ≡ false → text_le t s ≡ true
unfolding text_le
text_le_total [] t h = cc
text_le_total (c ∷ s) [] h = refl
text_le_total (c ∷ s) (d ∷ t) h = ground (arith, text_le_total s t)

pub text_le_antisymm : (s t : Text) → text_le s t ≡ true → text_le t s ≡ true → s ≡ t
unfolding text_le
text_le_antisymm [] [] h k = refl
text_le_antisymm [] (d ∷ t) h k = cc
text_le_antisymm (c ∷ s) [] h k = cc
text_le_antisymm (c ∷ s) (d ∷ t) h k = ground (arith, text_le_antisymm s t)

pub text_le_trans : (s t u : Text) → text_le s t ≡ true → text_le t u ≡ true → text_le s u ≡ true
unfolding text_le
text_le_trans [] t u h k = refl
text_le_trans (c ∷ s) [] u h k = cc
text_le_trans (c ∷ s) (d ∷ t) [] h k = cc
text_le_trans (c ∷ s) (d ∷ t) (e ∷ u) h k = ground (arith, text_le_trans s t u)

insert_sorted_comm :
    (a b : Text) (ts : List Text)
    → insert_sorted a (insert_sorted b ts) ≡ insert_sorted b (insert_sorted a ts)
unfolding insert_sorted
insert_sorted_comm a b [] =
    ground (arith, text_le_total a b, text_le_total b a, text_le_antisymm a b)
insert_sorted_comm a b (t ∷ ts) = ground (
  arith,
  text_le_total a b,
  text_le_total b a,
  text_le_antisymm a b,
  text_le_trans a b t,
  text_le_trans b a t,
  text_le_total a t,
  text_le_total b t,
  text_le_total t a,
  text_le_total t b,
  text_le_antisymm a t,
  text_le_antisymm b t,
  insert_sorted_comm a b ts,
)

texts_set : IsSet (List Text)
texts_set = hlevel

-- The order in which scopes are listed does not matter to their key in the cache.
pub build_cache_key-Perm :
    (client_id : Text) (scopes scopes' : List Text)
    → Perm scopes scopes'
    → build_cache_key client_id scopes ≡ build_cache_key client_id scopes'
unfolding build_cache_key sort
build_cache_key-Perm client_id scopes scopes' p =
    ap (λ ts. client_id ++ (b':' ∷ join b',' ts))
      (Perm.foldr-eq texts_set insert_sorted insert_sorted_comm p [])

-- Two scopes in order, the first before the second, have the key of the one scope that a comma
-- between them makes.
pub build_cache_key-collides :
    (client_id s t : Text)
    → text_le s t ≡ true
    → build_cache_key client_id ((s ++ (b',' ∷ t)) ∷ []) ≡ build_cache_key client_id (s ∷ t ∷ [])
unfolding build_cache_key sort insert_sorted join
build_cache_key-collides client_id s t h = ground arith
