-- ===== src/Examples/Addresses.antt =====
-- The theorems on endpoints and identifiers at concrete inputs.
use bucky_p2p.Base.{
  ℕ, ◌≡◌, ◌≤◌, refl, List, [], ◌∷◌, ◌++◌, Option, none, some, ok, drop, length, arith,
}
use bucky_p2p.Net.{Ipv6Addr, SocketAddr, v4, v6}
use bucky_p2p.Endpoint.{
  Endpoint, Protocol, tcp, quic, lan, wan, mapped, server_reflexive, is_documentation_range,
  classify_reported_ipv6_area, rendezvous_reverse_connect_eligible_area,
}
use bucky_p2p.Endpoint.Codec.{raw_encode, raw_decode, raw_measure, IsProtocol, IsAddr}
use bucky_p2p.Endpoint.Text.{to_text, from_text}
use bucky_p2p.Endpoint.RoundTrip.{raw_decode-raw_encode, raw_decode_sound}
use bucky_p2p.Endpoint.TextRoundTrip.{from_text-to_text, without_flow}
use bucky_p2p.Examples.Samples.{mapped_tcp}

abbrev ten_zeros : List ℕ
ten_zeros = 0 ∷ 0 ∷ 0 ∷ 0 ∷ 0 ∷ 0 ∷ 0 ∷ 0 ∷ 0 ∷ 0 ∷ []

raw_decode-raw_encode_example :
    (w : List ℕ) × (raw_encode mapped_tcp ten_zeros
      ≡ ok (w, drop (raw_measure mapped_tcp) ten_zeros))
    × (length w ≡ raw_measure mapped_tcp)
    × (raw_decode (w ++ 5 ∷ []) ≡ ok (mapped_tcp, 5 ∷ []))
unfolding raw_measure
raw_decode-raw_encode_example =
    raw_decode-raw_encode mapped_tcp ten_zeros (5 ∷ [])
      (record { protocol_ok = tt; addr_ok = omega arith }) (omega arith)

abbrev encoded_tcp : List ℕ
encoded_tcp = 96 ∷ 184 ∷ 11 ∷ 8 ∷ 8 ∷ 4 ∷ 4 ∷ 5 ∷ []

raw_decode_sound_example :
    IsProtocol tcp
    × (raw_measure mapped_tcp ≤ length encoded_tcp)
    × (5 ∷ [] ≡ drop (raw_measure mapped_tcp) encoded_tcp)
unfolding raw_decode bucky_p2p.Endpoint.Codec.decode_protocol bucky_p2p.Endpoint.Codec.decode_addr
    bucky_p2p.Endpoint.Codec.decode_area
raw_decode_sound_example = raw_decode_sound encoded_tcp (5 ∷ []) mapped_tcp refl

-- A plain way to print addresses, without the flow label, and its parser.
abbrev print_plain : SocketAddr → List ℕ
print_plain (v4 a p) = 4 ∷ a.o0 ∷ a.o1 ∷ a.o2 ∷ a.o3 ∷ p ∷ []
print_plain (v6 a p f s) = 6 ∷ a.s0 ∷ a.s1 ∷ a.s2 ∷ a.s3 ∷ a.s4 ∷ a.s5 ∷ a.s6 ∷ a.s7 ∷ p ∷ s ∷ []

abbrev parse_plain : List ℕ → Option SocketAddr
parse_plain (n ∷ a ∷ b ∷ c ∷ d ∷ p ∷ []) = some (v4 (record { o0 = a; o1 = b; o2 = c; o3 = d }) p)
parse_plain (n ∷ a ∷ b ∷ c ∷ d ∷ e ∷ g ∷ h ∷ i ∷ p ∷ s ∷ []) =
    some (v6 (record { s0 = a; s1 = b; s2 = c; s3 = d; s4 = e; s5 = g; s6 = h; s7 = i }) p 0 s)
parse_plain _ = none

parse-print_plain :
    (a : SocketAddr) → IsAddr a → parse_plain (print_plain a) ≡ some (without_flow a)
parse-print_plain (v4 a p) h = refl
parse-print_plain (v6 a p f s) h = refl

abbrev global_v6 : Ipv6Addr
global_v6 = record { s0 = 0x2a00; s1 = 1; s2 = 2; s3 = 3; s4 = 4; s5 = 5; s6 = 6; s7 = 7 }

-- An IPv6 endpoint with a flow label and a scope.
abbrev flow_tcp : Endpoint
flow_tcp = record { area = wan; protocol = tcp; addr = v6 global_v6 3000 9 2 }

from_text-to_text_example :
    from_text parse_plain (to_text print_plain flow_tcp)
    ≡ ok (record flow_tcp { addr = without_flow flow_tcp.addr })
from_text-to_text_example =
    from_text-to_text print_plain parse_plain parse-print_plain flow_tcp
      (record { protocol_ok = tt; addr_ok = omega arith })
