-- ===== src/Hashing.antt =====
-- src/core/util/hash.rs and src/core/util/consistent_hash.rs. SHA-256, as the list of the bytes of a
-- digest, and the hash of the standard library are parameters.
pub mod Ring
pub mod Moved
mod Tests
use rapid_gate.Base.{
  ℕ, zero, suc, ◌+◌, ◌*◌, ◌/◌, ◌%◌, ◌^◌, ltb, leb, ◌==◌, Bool, true, false, Option, none, some,
  List, [], ◌∷◌, ◌++◌, Text, take, get_elem?, codes, if◌then◌else◌,
}
use rapid_gate.Loader.Expand.{utf8}

-- `v |= (b as u64) << (i * 8)` for the bytes in order: their bits do not overlap
unfoldable pub from_le_bytes : List ℕ → ℕ
from_le_bytes [] = 0
from_le_bytes (b ∷ bs) = b + 256 * from_le_bytes bs

abbrev pub hex_digits : Text
hex_digits = codes "0123456789ABCDEF"

abbrev pub digit : ℕ → Text
digit n = elim (get_elem? hex_digits n) [ none ↦ [] | some c ↦ c ∷ [] ]

-- `hex::encode_upper`
unfoldable pub encode_upper : List ℕ → Text
encode_upper [] = []
encode_upper (b ∷ bs) = digit (b / 16) ++ (digit (b % 16) ++ encode_upper bs)

module _ (sha256 : List ℕ → List ℕ) where
  -- the modulus is positive by the assertion
  unfoldable pub bucket_index : Text → ℕ → ℕ
  unfolding from_le_bytes
  bucket_index key buckets = from_le_bytes (take 8 (sha256 (utf8 key))) % buckets

  unfoldable pub fingerprint_api_key : Text → Text
  unfolding encode_upper
  fingerprint_api_key key = encode_upper (take 8 (sha256 (utf8 key)))

  unfoldable pub hash_key : Text → ℕ
  unfolding from_le_bytes
  hash_key key = from_le_bytes (take 8 (sha256 (utf8 key)))

module _ {T : Type 0} where
  -- a `BTreeMap` as the list of its entries in the order of their keys
  unfoldable pub insert : ℕ → T → List (ℕ × T) → List (ℕ × T)
  insert key value [] = (key, value) ∷ []
  insert key value ((k, v) ∷ ring) =
      let rest = insert key value ring in
      if ltb key k
      then (key, value) ∷ (k, v) ∷ ring
      else if key == k
      then (key, value) ∷ ring
      else (k, v) ∷ rest

  -- `range(h..).next()`
  unfoldable pub at_least : ℕ → List (ℕ × T) → Option T
  at_least h [] = none
  at_least h ((k, v) ∷ ring) = let rest = at_least h ring in if leb h k then some v else rest

  -- `values().next()`
  unfoldable pub first_value : List (ℕ × T) → Option T
  first_value [] = none
  first_value ((k, v) ∷ ring) = some v

  unfoldable pub lookup : ℕ → List (ℕ × T) → Option T
  lookup h ring = elim (at_least h ring) [ some v ↦ some v | none ↦ first_value ring ]

  module _ (hash_node : T → ℕ → ℕ) where
    -- the loop over the virtual nodes of a bucket, from the index `i` on
    unfoldable pub add_nodes : T → ℕ → ℕ → List (ℕ × T) → List (ℕ × T)
    unfolding insert
    add_nodes bucket i zero ring = ring
    add_nodes bucket i (suc n) ring =
        add_nodes bucket (suc i) n (insert (hash_node bucket i) bucket ring)

    unfoldable pub add_buckets : ℕ → List T → List (ℕ × T) → List (ℕ × T)
    unfolding add_nodes
    add_buckets n [] ring = ring
    add_buckets n (b ∷ bs) ring = add_buckets n bs (add_nodes b 0 n ring)

    unfoldable pub with_virtual_nodes : List T → ℕ → List (ℕ × T)
    unfolding add_buckets
    with_virtual_nodes buckets n = add_buckets n buckets []

    -- `get` of the ring of those buckets
    unfoldable pub get : (List ℕ → List ℕ) → List T → ℕ → Text → Option T
    get sha256 buckets n key = lookup (hash_key sha256 key) (with_virtual_nodes buckets n)
