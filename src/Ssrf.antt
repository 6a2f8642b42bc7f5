-- ===== src/Ssrf.antt =====
-- The guard on upstream addresses: `check_ssrf` and `is_blocked_ip` of src/service/upstream_pool.rs.
pub mod Ranges
pub mod Guard
pub mod Pool
mod Tests
use rapid_gate.Base.{
  ℕ, ◌+◌, ◌*◌, ◌/◌, ◌==◌, leb, Bool, true, false, not, ◌&&◌, ◌||◌, Option, none, some, List, [],
  ◌∷◌, ◌++◌, any, find, Text, codes, split, starts_with, trim_start_by, eq_ignore_ascii_case,
  if◌then◌else◌,
}
use rapid_gate.Config.{SsrfConfig}
use rapid_gate.Error.{CoreError, bad_request, Result, ok, err}
use rapid_gate.Url.{authority_of, first_part}

-- the octets of an IPv4 address and the segments of an IPv6 address
pub record Ipv4Addr : Type 0 where
  pub a : ℕ
  pub b : ℕ
  pub c : ℕ
  pub d : ℕ

pub record Ipv6Addr : Type 0 where
  pub s0 : ℕ
  pub s1 : ℕ
  pub s2 : ℕ
  pub s3 : ℕ
  pub s4 : ℕ
  pub s5 : ℕ
  pub s6 : ℕ
  pub s7 : ℕ

pub data IpAddr : Type 0 where
  v4 : Ipv4Addr → IpAddr
  v6 : Ipv6Addr → IpAddr

-- the tests of `std::net::Ipv4Addr`
abbrev pub is_loopback : Ipv4Addr → Bool
is_loopback ip = ip.a == 127

abbrev pub is_private : Ipv4Addr → Bool
is_private ip =
    ip.a == 10 || (ip.a == 172 && (leb 16 ip.b && leb ip.b 31)) || (ip.a == 192 && ip.b == 168)

abbrev pub is_link_local : Ipv4Addr → Bool
is_link_local ip = ip.a == 169 && ip.b == 254

abbrev pub is_unspecified : Ipv4Addr → Bool
is_unspecified ip = ip.a == 0 && ip.b == 0 && ip.c == 0 && ip.d == 0

-- and those of `std::net::Ipv6Addr`
abbrev pub high_zero : Ipv6Addr → Bool
high_zero ip =
    ip.s0 == 0 && ip.s1 == 0 && ip.s2 == 0 && ip.s3 == 0 && ip.s4 == 0 && ip.s5 == 0 && ip.s6 == 0

abbrev pub is_loopback6 : Ipv6Addr → Bool
is_loopback6 ip = high_zero ip && ip.s7 == 1

abbrev pub is_unspecified6 : Ipv6Addr → Bool
is_unspecified6 ip = high_zero ip && ip.s7 == 0

unfoldable pub is_in_cidr_127 : Ipv4Addr → Bool
is_in_cidr_127 ip = ip.a == 127

unfoldable pub is_in_cidr_10 : Ipv4Addr → Bool
is_in_cidr_10 ip = ip.a == 10

unfoldable pub is_in_cidr_172_16 : Ipv4Addr → Bool
is_in_cidr_172_16 ip = ip.a == 172 && (leb 16 ip.b && leb ip.b 31)

unfoldable pub is_in_cidr_192_168 : Ipv4Addr → Bool
is_in_cidr_192_168 ip = ip.a == 192 && ip.b == 168

-- `x & 0xfe00` and `x & 0xffc0` of a u16 clear its low 9 and its low 6 bits.
unfoldable pub is_in_cidr_fc00 : Ipv6Addr → Bool
is_in_cidr_fc00 ip = ip.s0 / 512 * 512 == 0xfc00

unfoldable pub is_in_cidr_fe80 : Ipv6Addr → Bool
is_in_cidr_fe80 ip = ip.s0 / 64 * 64 == 0xfe80

unfoldable pub is_blocked_ip : IpAddr → Bool
unfolding is_in_cidr_127 is_in_cidr_10 is_in_cidr_172_16 is_in_cidr_192_168 is_in_cidr_fc00
    is_in_cidr_fe80
is_blocked_ip (v4 ip) =
    is_loopback ip
    || is_private ip
    || is_link_local ip
    || is_unspecified ip
    || is_in_cidr_127 ip
    || is_in_cidr_10 ip
    || is_in_cidr_172_16 ip
    || is_in_cidr_192_168 ip
is_blocked_ip (v6 ip) =
    is_loopback6 ip || is_unspecified6 ip || is_in_cidr_fc00 ip || is_in_cidr_fe80 ip

abbrev pub or_else {ℓ} : {A : Type ℓ} → Option A → A → A
or_else none a = a
or_else (some b) a = b

-- the host of an authority: without the port, and without the brackets of an IPv6 address
unfoldable pub pure_host : Text → Text
unfolding starts_with trim_start_by split
pure_host authority =
    if starts_with (codes "[") authority
    then elim (first_part (split b']' authority)) [
      | none ↦ authority
      | some s ↦ trim_start_by (λ c. c == b'[') s
    ]
    else or_else (first_part (split b':' authority)) authority

-- the text that is resolved: with port 443 where the authority has none
unfoldable pub socket_text : Text → Text
socket_text authority =
    if any (λ c. c == b':') authority then authority else authority ++ codes ":443"

-- the loop over the addresses
unfoldable pub check_addrs : Text → List IpAddr → Result (Unit {0})
unfolding is_blocked_ip
check_addrs host [] = ok tt
check_addrs host (ip ∷ ips) =
    if is_blocked_ip ip then err (bad_request host) else check_addrs host ips

-- `to_socket_addrs`, the addresses that DNS gives or none where it fails, is a parameter.
module _ (to_socket_addrs : Text → Option (List IpAddr)) where
  unfoldable pub resolve_host : Text → Text → Result (Unit {0})
  unfolding check_addrs
  resolve_host host text = elim (to_socket_addrs text) [
    | none ↦ err (bad_request host)
    | some addrs ↦ check_addrs host addrs
  ]

  unfoldable pub check_authority : List Text → Text → Result (Unit {0})
  unfolding pure_host socket_text resolve_host eq_ignore_ascii_case
  check_authority allow_list authority =
      let host = pure_host authority in
      if any (λ h. eq_ignore_ascii_case h host) allow_list
      then ok tt
      else resolve_host host (socket_text authority)

  unfoldable pub check_ssrf : SsrfConfig → Text → Result (Unit {0})
  unfolding authority_of check_authority
  check_ssrf config base_url = if not config.enabled then ok tt else elim (authority_of base_url) [
    | none ↦ err (bad_request base_url)
    | some authority ↦ check_authority config.allow_list authority
  ]
