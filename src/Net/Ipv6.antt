-- ===== src/Net/Ipv6.antt =====
-- `std::net::Ipv6Addr`: the 16-bit segments, and the tests of the standard library.
use bucky_p2p.Base.{ℕ, ◌*◌, ◌/◌, ◌^◌, ◌<◌, Bool, ◌&&◌, ◌==◌, ℕ_discrete}

pub record Ipv6Addr : Type 0 where
  pub s0 : ℕ
  pub s1 : ℕ
  pub s2 : ℕ
  pub s3 : ℕ
  pub s4 : ℕ
  pub s5 : ℕ
  pub s6 : ℕ
  pub s7 : ℕ

unfoldable pub Ipv6Addr-discrete : Discrete Ipv6Addr
Ipv6Addr-discrete = hlevel ℕ_discrete

-- `x & mask` where the mask clears the `k` low bits of a 16-bit word.
abbrev pub clear_low : ℕ → ℕ → ℕ
clear_low k x = x / 2 ^ k * 2 ^ k

abbrev upper_zero : Ipv6Addr → Bool
upper_zero a =
    a.s0 == 0 && a.s1 == 0 && a.s2 == 0 && a.s3 == 0 && a.s4 == 0 && a.s5 == 0 && a.s6 == 0

abbrev pub is_loopback : Ipv6Addr → Bool
is_loopback a = upper_zero a && a.s7 == 1

abbrev pub is_unspecified : Ipv6Addr → Bool
is_unspecified a = upper_zero a && a.s7 == 0

-- ff00::/8, fc00::/7 and fe80::/10.
abbrev pub is_multicast : Ipv6Addr → Bool
is_multicast a = clear_low 8 a.s0 == 0xff00

abbrev pub is_unique_local : Ipv6Addr → Bool
is_unique_local a = clear_low 9 a.s0 == 0xfc00

abbrev pub is_unicast_link_local : Ipv6Addr → Bool
is_unicast_link_local a = clear_low 6 a.s0 == 0xfe80

abbrev pub IsIpv6 : Ipv6Addr → Type 0
IsIpv6 a =
    (a.s0 < 65536)
    × (a.s1 < 65536)
    × (a.s2 < 65536)
    × (a.s3 < 65536)
    × (a.s4 < 65536)
    × (a.s5 < 65536)
    × (a.s6 < 65536)
    × (a.s7 < 65536)
