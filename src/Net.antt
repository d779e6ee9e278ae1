-- ===== src/Net.antt =====
-- The socket addresses of `std::net` that the program computes with, as numbers: the octets of an
-- IPv4 address, the 16-bit segments of an IPv6 address, and the tests of the standard library.
pub mod Ipv4
pub mod Ipv6
pub use Ipv4.{Ipv4Addr, IsIpv4}
pub use Ipv6.{Ipv6Addr, IsIpv6, clear_low}
unfoldable pub use Ipv4.{Ipv4Addr-discrete}
unfoldable pub use Ipv6.{Ipv6Addr-discrete}
use bucky_p2p.Base.{
  ℕ, ◌+◌, ◌*◌, ◌/◌, ◌^◌, ◌≤◌, ◌<◌, ◌≡◌, Bool, true, false, ◌&&◌, ◌||◌, ◌==◌, leb, Eq, ℕ_discrete,
}

pub data IpAddr : Type 0 where
  ipv4 : Ipv4Addr → IpAddr
  ipv6 : Ipv6Addr → IpAddr

-- `v6 ip port flowinfo scope_id`.
pub data SocketAddr : Type 0 where
  v4 : Ipv4Addr → ℕ → SocketAddr
  v6 : Ipv6Addr → ℕ → ℕ → ℕ → SocketAddr

unfoldable pub IpAddr-discrete : Discrete IpAddr
unfolding Ipv4Addr-discrete Ipv6Addr-discrete
IpAddr-discrete = hlevel (Ipv4Addr-discrete, Ipv6Addr-discrete)

unfoldable pub SocketAddr-discrete : Discrete SocketAddr
unfolding Ipv4Addr-discrete Ipv6Addr-discrete
SocketAddr-discrete = hlevel (ℕ_discrete, Ipv4Addr-discrete, Ipv6Addr-discrete)

instance abbrev pub ip_eq : Eq IpAddr
ip_eq = record { dec = IpAddr-discrete }

instance abbrev pub addr_eq : Eq SocketAddr
addr_eq = record { dec = SocketAddr-discrete }

abbrev pub port : SocketAddr → ℕ
port (v4 a p) = p
port (v6 a p f s) = p

abbrev pub ip : SocketAddr → IpAddr
ip (v4 a p) = ipv4 a
ip (v6 a p f s) = ipv6 a

abbrev pub is_ipv4 : SocketAddr → Bool
is_ipv4 (v4 a p) = true
is_ipv4 (v6 a p f s) = false
