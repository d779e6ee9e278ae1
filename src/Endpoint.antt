-- ===== src/Endpoint.antt =====
-- p2p-frame/src/endpoint.rs: the endpoint, its equality and the areas that it is sorted into.
-- Text and bytes are in the children.
pub mod Codec
pub mod Areas
pub mod RoundTrip
pub mod Text
pub mod TextRoundTrip
use bucky_p2p.Base.{
  ℕ, ◌≡◌, Bool, true, false, not, ◌&&◌, ◌||◌, Option, none, some, ℕ_discrete, Eq, ◌==◌, ◌≟◌,
  if◌then◌else◌,
}
use bucky_p2p.Net
use bucky_p2p.Net.{
  Ipv4Addr, Ipv6Addr, SocketAddr, v4, v6, is_ipv4, port, ip, clear_low, addr_eq, ip_eq,
  SocketAddr-discrete,
}

pub data Protocol : Type 0 where
  ext : ℕ → Protocol
  tcp quic : Protocol

pub data EndpointArea : Type 0 where
  lan server_reflexive wan mapped : EndpointArea

unfoldable pub Protocol-discrete : Discrete Protocol
Protocol-discrete = hlevel ℕ_discrete

unfoldable pub EndpointArea-discrete : Discrete EndpointArea
EndpointArea-discrete = hlevel

instance abbrev pub protocol_eq : Eq Protocol
protocol_eq = record { dec = Protocol-discrete }

instance abbrev pub area_eq : Eq EndpointArea
area_eq = record { dec = EndpointArea-discrete }

pub record Endpoint : Type 0 where
  pub area : EndpointArea
  pub protocol : Protocol
  pub addr : SocketAddr

-- `PartialEq` leaves the area out.
unfoldable pub endpoint_eq : Endpoint → Endpoint → Bool
endpoint_eq a b = a.protocol ≟ b.protocol && a.addr ≟ b.addr

unfoldable pub default_of : Endpoint → Endpoint
default_of ep = record {
  area = lan;
  protocol = elim ep.protocol [ tcp ↦ tcp | _ ↦ quic ];
  addr =
      if is_ipv4 ep.addr
      then v4 (record { o0 = 0; o1 = 0; o2 = 0; o3 = 0 }) 0
      else v6 (record { s0 = 0; s1 = 0; s2 = 0; s3 = 0; s4 = 0; s5 = 0; s6 = 0; s7 = 0 }) 0 0 0;
}

abbrev pub is_static_wan : Endpoint → Bool
is_static_wan e = elim e.area [ wan ↦ true | mapped ↦ true | _ ↦ false ]

unfoldable pub is_non_lan_ipv4_addr : SocketAddr → Bool
is_non_lan_ipv4_addr (v6 a p f s) = false
is_non_lan_ipv4_addr (v4 a p) =
    not (Net.Ipv4.is_private a)
    && not (Net.Ipv4.is_loopback a)
    && not (Net.Ipv4.is_link_local a)
    && not (Net.Ipv4.is_unspecified a)
    && not (Net.Ipv4.is_broadcast a)
    && not (Net.Ipv4.is_multicast a)

unfoldable pub is_ipv4_mapped_prefix : Ipv6Addr → Bool
is_ipv4_mapped_prefix a =
    a.s0 == 0 && a.s1 == 0 && a.s2 == 0 && a.s3 == 0 && a.s4 == 0 && a.s5 == 0xffff

-- `segments[0] & 0xfff0` clears four bits.
unfoldable pub is_documentation_range : Ipv6Addr → Bool
is_documentation_range a = (a.s0 == 0x2001 && a.s1 == 0x0db8) || clear_low 4 a.s0 == 0x3ff0

unfoldable pub is_benchmarking_range : Ipv6Addr → Bool
is_benchmarking_range a = a.s0 == 0x2001 && a.s1 == 0x0002

unfoldable pub classify_reported_ipv6_area : SocketAddr → Option EndpointArea
unfolding is_ipv4_mapped_prefix is_documentation_range is_benchmarking_range
classify_reported_ipv6_area (v4 a p) = none
classify_reported_ipv6_area (v6 a p f s) =
    if Net.Ipv6.is_loopback a || Net.Ipv6.is_unspecified a || Net.Ipv6.is_multicast a
    then none
    else if Net.Ipv6.is_unique_local a
        || Net.Ipv6.is_unicast_link_local a
        || is_ipv4_mapped_prefix a
        || is_documentation_range a
        || is_benchmarking_range a
    then some lan
    else some wan

-- The build without the feature `test-real-socket-matrix`.
unfoldable pub rendezvous_ipv4_eligible : SocketAddr → Bool
rendezvous_ipv4_eligible a = if is_non_lan_ipv4_addr a then true else false

unfoldable pub rendezvous_eligible_area : Endpoint → Bool
unfolding rendezvous_ipv4_eligible
rendezvous_eligible_area e =
    if not (rendezvous_ipv4_eligible e.addr)
    then false
    else if e.area ≟ server_reflexive
    then true
    else false

unfoldable pub rendezvous_reverse_connect_eligible_area : Endpoint → Bool
unfolding rendezvous_ipv4_eligible
rendezvous_reverse_connect_eligible_area e =
    rendezvous_ipv4_eligible e.addr
    && elim e.area [ server_reflexive ↦ true | wan ↦ true | mapped ↦ true | lan ↦ false ]
