-- ===== src/Ssrf/Tests.antt =====
-- The unit tests of src/service/upstream_pool.rs, and concrete runs.
use rapid_gate.Base.{
  ℕ, true, false, Option, none, some, List, [], ◌∷◌, Text, codes, text_eq, ◌≡◌, refl, if◌then◌else◌,
}
use rapid_gate.Config.{SsrfConfig, UpstreamConfig}
use rapid_gate.Error.{ok, err, bad_request}
use rapid_gate.Ssrf.{Ipv4Addr, IpAddr, v4, is_blocked_ip, check_ssrf}
use rapid_gate.Samples.{table, upstream}
use rapid_gate.Ssrf.Pool.{UpstreamPool, new, client_for, client_for-check_ssrf}

abbrev local : Ipv4Addr
local = record { a = 127; b = 0; c = 0; d = 1 }

abbrev public : Ipv4Addr
public = record { a = 8; b = 8; c = 8; d = 8 }

-- resolves one name, to a local address
abbrev dns : Text → Option (List IpAddr)
dns name =
    if text_eq name (codes "10.0.0.1:443")
    then some (v4 (record { a = 10; b = 0; c = 0; d = 1 }) ∷ [])
    else none

abbrev guarded : SsrfConfig
guarded = record { enabled = true; allow_list = codes "127.0.0.1" ∷ [] }

blocks_loopback_v4 : is_blocked_ip (v4 local) ≡ true
unfolding is_blocked_ip
blocks_loopback_v4 = refl

allows_public_ip : is_blocked_ip (v4 public) ≡ false
unfolding is_blocked_ip
allows_public_ip = refl

ssrf_allow_list_exempts_host : check_ssrf dns guarded (codes "http://127.0.0.1:9000/v1") ≡ ok tt
unfolding check_ssrf
ssrf_allow_list_exempts_host = refl

-- user information that looks like an exempt host
ssrf_user_exempts_host : check_ssrf dns guarded (codes "http://127.0.0.1:x@10.0.0.1:443/v1") ≡ ok tt
unfolding check_ssrf
ssrf_user_exempts_host = refl

ssrf_enabled_blocks_private :
    check_ssrf dns guarded (codes "http://10.0.0.1/v1") ≡ err (bad_request (codes "10.0.0.1"))
unfolding check_ssrf text_eq
ssrf_enabled_blocks_private = refl

abbrev open_pool : UpstreamPool (Text → Option ℕ)
open_pool = new (table ℕ) (λ s. some 1) dns guarded 1000 1024

abbrev exempt : UpstreamConfig
exempt = record (upstream (codes "a") []) { base_url = codes "http://127.0.0.1:9000/v1" }

given : (client_for (table ℕ) (λ s. some 1) dns open_pool exempt).1 ≡ ok 1
unfolding client_for check_ssrf new
given = refl

client_for-check_ssrf_example : check_ssrf dns guarded (codes "http://127.0.0.1:9000/v1") ≡ ok tt
unfolding new
client_for-check_ssrf_example =
    client_for-check_ssrf (table ℕ) (λ s. some 1) dns open_pool exempt 1 given
