-- ===== src/Hashing/Tests.antt =====
-- Concrete runs of the ring and of the hashes.
use rapid_gate.Base.{ℕ, ◌+◌, ◌*◌, List, [], ◌∷◌, codes, ◌≡◌, refl}
use rapid_gate.Hashing.{get, encode_upper, from_le_bytes}
use rapid_gate.Hashing.Moved.{NewOr, get-added}

abbrev digest : List ℕ → List ℕ
digest bytes = bytes

abbrev node : ℕ → ℕ → ℕ
node bucket i = bucket * 7 + i

hex : encode_upper (0xAF ∷ 9 ∷ []) ≡ codes "AF09"
unfolding encode_upper
hex = refl

little_endian : from_le_bytes (1 ∷ 2 ∷ []) ≡ 513
unfolding from_le_bytes
little_endian = refl

get-added_example :
    NewOr 30
      (get node digest (10 ∷ 20 ∷ []) 2 (codes "k"))
      (get node digest (10 ∷ 20 ∷ 30 ∷ []) 2 (codes "k"))
get-added_example = get-added node digest (10 ∷ 20 ∷ []) 30 2 (codes "k")
