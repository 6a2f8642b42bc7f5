-- ===== src/Ssrf/Ranges.antt =====
-- The addresses that `is_blocked_ip` blocks, as ranges of numbers.
use rapid_gate.Base.{ℕ, ◌+◌, ◌*◌, ◌<◌, ◌≤◌, true, false, ◌≡◌, ◌↔◌, ◌⊎◌, arith}
use rapid_gate.Ssrf.{Ipv4Addr, Ipv6Addr, v4, v6, is_blocked_ip}

abbrev pub IsOctets : Ipv4Addr → Type 0
IsOctets ip = (ip.a < 256) × (ip.b < 256) × (ip.c < 256) × (ip.d < 256)

-- the address as a number of 32 bits
abbrev pub number : Ipv4Addr → ℕ
number ip = ip.a * 16777216 + ip.b * 65536 + ip.c * 256 + ip.d

abbrev pub Within : ℕ → ℕ → ℕ → Type 0
Within lo hi n = (lo ≤ n) × (n < hi)

-- 0.0.0.0, 10.0.0.0/8, 127.0.0.0/8, 169.254.0.0/16, 172.16.0.0/12 and 192.168.0.0/16
abbrev pub IsInternal : ℕ → Type 0
IsInternal n =
    (n ≡ 0)
    ⊎ Within 0x0a000000 0x0b000000 n
    ⊎ Within 0x7f000000 0x80000000 n
    ⊎ Within 0xa9fe0000 0xa9ff0000 n
    ⊎ Within 0xac100000 0xac200000 n
    ⊎ Within 0xc0a80000 0xc0a90000 n

-- An IPv4 address is blocked exactly when, as a number, it is 0.0.0.0 or lies in 10.0.0.0/8,
-- 127.0.0.0/8, 169.254.0.0/16, 172.16.0.0/12 or 192.168.0.0/16.
pub is_blocked_ip-v4_iff :
    (ip : Ipv4Addr) → IsOctets ip → (is_blocked_ip (v4 ip) ≡ true) ↔ IsInternal (number ip)
unfolding is_blocked_ip
is_blocked_ip-v4_iff ip o = ground arith

abbrev pub IsSegments : Ipv6Addr → Type 0
IsSegments ip =
    (ip.s0 < 65536)
    × (ip.s1 < 65536)
    × (ip.s2 < 65536)
    × (ip.s3 < 65536)
    × (ip.s4 < 65536)
    × (ip.s5 < 65536)
    × (ip.s6 < 65536)
    × (ip.s7 < 65536)

-- An IPv6 address is blocked exactly when it is :: or ::1 or its first segment lies in fc00 to fdff
-- or in fe80 to febf.
pub is_blocked_ip-v6_iff :
    (ip : Ipv6Addr)
    → IsSegments ip
    → (is_blocked_ip (v6 ip) ≡ true) ↔ (
        ((ip.s0 + ip.s1 + ip.s2 + ip.s3 + ip.s4 + ip.s5 + ip.s6 ≡ 0) × (ip.s7 ≤ 1))
        ⊎ Within 0xfc00 0xfe00 ip.s0
        ⊎ Within 0xfe80 0xfec0 ip.s0)
unfolding is_blocked_ip
is_blocked_ip-v6_iff ip o = ground arith

-- the IPv6 address ::ffff:a.b.c.d that stands for an IPv4 address
abbrev pub mapped : Ipv4Addr → Ipv6Addr
mapped ip = record {
  s0 = 0;
  s1 = 0;
  s2 = 0;
  s3 = 0;
  s4 = 0;
  s5 = 0xffff;
  s6 = ip.a * 256 + ip.b;
  s7 = ip.c * 256 + ip.d;
}

-- No IPv4 address is blocked when it is written as an IPv6 address, also where it is internal.
pub is_blocked_ip-mapped : (ip : Ipv4Addr) → is_blocked_ip (v6 (mapped ip)) ≡ false
unfolding is_blocked_ip
is_blocked_ip-mapped ip = ground arith
