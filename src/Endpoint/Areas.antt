-- ===== src/Endpoint/Areas.antt =====
-- Which endpoints take part in a rendezvous, and how reported IPv6 addresses are classified
-- (p2p-frame/src/endpoint.rs).
use bucky_p2p.Base.{ℕ, ◌≤◌, ◌<◌, ◌≡◌, ◌↔◌, ◌⊎◌, ◌≢◌, true, some, arith, refl}
use bucky_p2p.Net.{SocketAddr, v6, Ipv4Addr, Ipv6Addr, IsIpv6, v4}
use bucky_p2p.Endpoint.{
  Endpoint, lan, wan, is_static_wan, is_non_lan_ipv4_addr, is_documentation_range,
  classify_reported_ipv6_area, rendezvous_eligible_area, rendezvous_reverse_connect_eligible_area,
}

-- An endpoint may be dialled back exactly when it may be punched, or is a static or mapped public
-- endpoint outside the local IPv4 ranges.
pub reverse_connect_eligible_iff :
    (e : Endpoint)
    → (rendezvous_reverse_connect_eligible_area e ≡ true) ↔ (
        (rendezvous_eligible_area e ≡ true)
        ⊎ ((is_static_wan e ≡ true) × (is_non_lan_ipv4_addr e.addr ≡ true)))
unfolding rendezvous_reverse_connect_eligible_area rendezvous_eligible_area
reverse_connect_eligible_iff e = ground arith

-- The local, documentation and reserved ranges, by the numbers of the address.
record IsPublicV4 (a : Ipv4Addr) : Type 0 where
  pub not_ten : a.o0 ≢ 10
  pub not_loopback : a.o0 ≢ 127
  pub below_multicast : (a.o0 < 224) ⊎ (240 ≤ a.o0)
  pub not_172 : a.o0 ≡ 172 → (a.o1 < 16) ⊎ (32 ≤ a.o1)
  pub not_192 : a.o0 ≡ 192 → a.o1 ≢ 168
  pub not_link_local : a.o0 ≡ 169 → a.o1 ≢ 254

non_lan-IsPublicV4 :
    (a : SocketAddr)
    → is_non_lan_ipv4_addr a ≡ true
    → (x : Ipv4Addr) × (p : ℕ) × (a ≡ v4 x p) × IsPublicV4 x
unfolding is_non_lan_ipv4_addr
non_lan-IsPublicV4 (v4 x p) h = (x, p, refl, ground arith)
non_lan-IsPublicV4 (v6 x p f s) h = cc

eligible_parts :
    (e : Endpoint)
    → rendezvous_reverse_connect_eligible_area e ≡ true
    → (is_non_lan_ipv4_addr e.addr ≡ true) × (e.area ≢ lan)
unfolding rendezvous_reverse_connect_eligible_area
eligible_parts e h = ground arith

-- What is punched or dialled is a server-reflexive, static or mapped endpoint at an IPv4 address
-- that is in none of the private, loopback, link-local and multicast ranges.
reverse_connect_eligible-IsPublicV4 :
    (e : Endpoint)
    → rendezvous_reverse_connect_eligible_area e ≡ true
    → (a : Ipv4Addr) × (p : ℕ) × (e.addr ≡ v4 a p) × IsPublicV4 a × (e.area ≢ lan)
reverse_connect_eligible-IsPublicV4 e h =
    let (public, placed) = eligible_parts e h in
    let (x, p, at, v) = non_lan-IsPublicV4 e.addr public in (x, p, at, v, placed)

-- Ranges of IPv6 addresses by their first segments: unique-local, link-local, multicast,
-- 2001:db8::/32, 2001:2::/32 and 3ff0::/12.
pub record IsOutsideV6 (a : Ipv6Addr) : Type 0 where
  pub not_unique_local : (a.s0 < 0xfc00) ⊎ (0xfe00 ≤ a.s0)
  pub not_link_local : (a.s0 < 0xfe80) ⊎ (0xfec0 ≤ a.s0)
  pub not_multicast : a.s0 < 0xff00
  pub not_documentation : a.s0 ≡ 0x2001 → (a.s1 ≢ 0x0db8) × (a.s1 ≢ 0x0002)
  pub not_3ff : (a.s0 < 0x3ff0) ⊎ (0x4000 ≤ a.s0)

-- A reported IPv6 address (with 16-bit segments) is classified `Wan` only outside the unique-local,
-- link-local and multicast ranges and outside 2001:db8::/32, 2001:2::/32 and 3ff0::/12.
pub classify_wan-IsOutsideV6 :
    (a : Ipv6Addr) (p f s : ℕ)
    → IsIpv6 a
    → classify_reported_ipv6_area (v6 a p f s) ≡ some wan
    → IsOutsideV6 a
unfolding classify_reported_ipv6_area
classify_wan-IsOutsideV6 a p f s h c = ground arith

-- 2001:db8::/32 and 3fff::/20, the ranges of RFC 3849 and RFC 9637.
abbrev pub IsDocumentation : Ipv6Addr → Type 0
IsDocumentation a = ((a.s0 ≡ 0x2001) × (a.s1 ≡ 0x0db8)) ⊎ ((a.s0 ≡ 0x3fff) × (a.s1 < 0x1000))

-- Every address of 3ff0::/12 below 3fff:: is classified `Lan` by the documentation test, though it
-- is in neither of the documentation ranges.
pub IsDocumentation-too_wide :
    (a : Ipv6Addr) (p f s : ℕ)
    → 0x3ff0 ≤ a.s0
    → a.s0 < 0x3fff
    → (is_documentation_range a ≡ true)
      × (classify_reported_ipv6_area (v6 a p f s) ≡ some lan)
      × (¬ IsDocumentation a)
unfolding is_documentation_range classify_reported_ipv6_area
IsDocumentation-too_wide a p f s lo hi = ground arith
