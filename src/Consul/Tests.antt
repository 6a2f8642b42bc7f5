-- ===== src/Consul/Tests.antt =====
-- Concrete values of the key-value store.
use rapid_gate.Base.{Text, codes, some, [], ◌∷◌, trim_end_by, ◌≡◌, refl, arith}
use rapid_gate.Error.{ok}
use rapid_gate.Consul.{default, base64_decode, fetch, decode_value}
use rapid_gate.Consul.Base64.{encode, base64_decode-encode}

abbrev hello : Text
hello = codes "aGVsbG8="

decoded : base64_decode hello ≡ some (codes "hello")
unfolding base64_decode trim_end_by
decoded = refl

fetched :
    fetch
      (λ bytes. some bytes)
      (λ r. some (200, []))
      (λ body. some (record { key = codes "k"; value = some hello; modify_index = 1 } ∷ []))
      default
      (codes "k")
    ≡ ok (codes "hello")
unfolding fetch base64_decode decode_value trim_end_by
fetched = refl

base64_decode-encode_example :
    base64_decode (encode (72 ∷ 105 ∷ 33 ∷ 255 ∷ [])) ≡ some (72 ∷ 105 ∷ 33 ∷ 255 ∷ [])
base64_decode-encode_example =
    base64_decode-encode (72 ∷ 105 ∷ 33 ∷ 255 ∷ [])
      (omega arith, (omega arith, (omega arith, (omega arith, tt))))
