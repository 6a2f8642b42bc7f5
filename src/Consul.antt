-- ===== src/Consul.antt =====
-- src/service/config_center/consul.rs: the client of the key-value store of Consul. The HTTP client
-- and the JSON parser are parameters.
pub mod Base64
mod Tests
use rapid_gate.Base.{
  ℕ, ◌+◌, ◌-◌, ◌*◌, ◌/◌, ◌%◌, ◌^◌, leb, ltb, ◌==◌, ◌&&◌, Bool, true, false, Option, none, some,
  List, [], ◌∷◌, ◌++◌, Text, codes, trim_end_by, if◌then◌else◌,
}
use rapid_gate.Base.Maybe.{◌>>=◌}
use rapid_gate.Error.{CoreError, config, Result, ok, err}

pub record ConsulConfig : Type 0 where
  pub endpoint : Text
  pub datacenter : Option Text
  pub token : Option Text
  pub prefix : Text

abbrev pub default : ConsulConfig
default = record {
  endpoint = codes "http://localhost:8500";
  datacenter = none;
  token = none;
  prefix = codes "rapidgate/config";
}

unfoldable pub full_key : ConsulConfig → Text → Text
full_key c key = c.prefix ++ (b'/' ∷ key)

unfoldable pub build_url : ConsulConfig → Text → Text
build_url c key = c.endpoint ++ (codes "/v1/kv/" ++ key)

-- `DECODE_TABLE`
abbrev pub alphabet : Text
alphabet = codes "ABCDEFGHIJKLMNOPQRSTUVWXYZabcdefghijklmnopqrstuvwxyz0123456789+/"

-- `iter().position`
unfoldable pub position : ℕ → Text → Option ℕ
position c [] = none
position c (d ∷ ds) = if d == c then some 0 else (position c ds >>= λ n. some (n + 1))

-- The loop of `base64_decode`. The buffer is a u32; the six bits of a digit stand below those that
-- are shifted up, so that the `|` of the source is a sum.
unfoldable pub decode_from : ℕ → ℕ → Text → Option (List ℕ)
unfolding position
decode_from buffer bits [] = some []
decode_from buffer bits (c ∷ s) = do
  digit ← position c alphabet
  let all = buffer * 64 % 2 ^ 32 + digit in
      let left = bits + 6 - 8 in
      if leb 8 (bits + 6)
      then (do rest ← decode_from (all % 2 ^ left) left s; some (all / 2 ^ left % 256 ∷ rest))
      else decode_from all (bits + 6) s

unfoldable pub base64_decode : Text → Option (List ℕ)
unfolding decode_from
base64_decode input = decode_from 0 0 (trim_end_by (λ c. c == b'=') input)

pub record ConsulKvEntry : Type 0 where
  pub key : Text
  pub value : Option Text
  pub modify_index : ℕ

-- the GET request that is made
pub record KvRequest : Type 0 where
  pub url : Text
  pub datacenter : Option Text
  pub token : Option Text

module _ (from_utf8 : List ℕ → Option Text) where
  unfoldable pub decode_value : ConsulKvEntry → Option Text
  unfolding base64_decode
  decode_value e = elim e.value [ none ↦ some [] | some v ↦ (base64_decode v >>= from_utf8) ]

  -- the value of the first entry
  abbrev pub first_value : Option (List ConsulKvEntry) → Result Text
  first_value none = err (config (codes "Consul response parse failed"))
  first_value (some []) = err (config (codes "Consul key not found"))
  first_value (some (e ∷ es)) = elim (decode_value e) [
    | none ↦ err (config (codes "Consul value decode failed"))
    | some text ↦ ok text
  ]

  -- `send` gives a status and a body, or nothing where the request fails.
  unfoldable pub fetch :
      (KvRequest → Option (ℕ × List ℕ))
      → (List ℕ → Option (List ConsulKvEntry))
      → ConsulConfig
      → Text
      → Result Text
  unfolding full_key build_url
  fetch send json c key =
      elim (send (record {
        url = build_url c (full_key c key);
        datacenter = c.datacenter;
        token = c.token;
      })) [
        | none ↦ err (config (codes "Consul fetch failed"))
        | some (status, body) ↦
            if leb 200 status && ltb status 300
            then first_value (json body)
            else err (config (codes "Consul fetch failed with status"))
      ]
