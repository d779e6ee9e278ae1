-- ===== src/Net/Ipv4.antt =====
-- `std::net::Ipv4Addr`: the octets, and the tests of the standard library.
use bucky_p2p.Base.{ℕ, ◌<◌, Bool, ◌&&◌, ◌||◌, ◌==◌, leb, ℕ_discrete}

pub record Ipv4Addr : Type 0 where
  pub o0 : ℕ
  pub o1 : ℕ
  pub o2 : ℕ
  pub o3 : ℕ

unfoldable pub Ipv4Addr-discrete : Discrete Ipv4Addr
Ipv4Addr-discrete = hlevel ℕ_discrete

abbrev pub is_private : Ipv4Addr → Bool
is_private a =
    a.o0 == 10 || (a.o0 == 172 && leb 16 a.o1 && leb a.o1 31) || (a.o0 == 192 && a.o1 == 168)

abbrev pub is_loopback : Ipv4Addr → Bool
is_loopback a = a.o0 == 127

abbrev pub is_link_local : Ipv4Addr → Bool
is_link_local a = a.o0 == 169 && a.o1 == 254

abbrev pub is_unspecified : Ipv4Addr → Bool
is_unspecified a = a.o0 == 0 && a.o1 == 0 && a.o2 == 0 && a.o3 == 0

abbrev pub is_broadcast : Ipv4Addr → Bool
is_broadcast a = a.o0 == 255 && a.o1 == 255 && a.o2 == 255 && a.o3 == 255

abbrev pub is_multicast : Ipv4Addr → Bool
is_multicast a = leb 224 a.o0 && leb a.o0 239

-- The ranges of the fields.
abbrev pub IsIpv4 : Ipv4Addr → Type 0
IsIpv4 a = (a.o0 < 256) × (a.o1 < 256) × (a.o2 < 256) × (a.o3 < 256)
