-- ===== src/Endpoint/Codec.antt =====
-- p2p-frame/src/endpoint.rs: the raw encoding of an endpoint, a flag byte, the port and the address.
-- A buffer is the list of its bytes; an encoder gives what it wrote and the rest of the buffer.
use Prim.Native.Nat.{bit_and, bit_or}
use bucky_p2p.Base.{
  ℕ, suc, ◌+◌, ◌*◌, ◌/◌, ◌^◌, ◌%◌, ◌≤◌, ◌<◌, Bool, true, false, ◌||◌, List, [], ◌∷◌, ◌++◌, ltb, leb,
  ◌==◌, if◌then◌else◌, length, drop, get_or, Result, ok, err,
}
use bucky_p2p.Net.{Ipv4Addr, Ipv6Addr, IsIpv4, IsIpv6, SocketAddr, v4, v6}
use bucky_p2p.Endpoint.{
  Endpoint, Protocol, ext, tcp, quic, EndpointArea, lan, server_reflexive, wan, mapped,
}

-- The codes of the codec library that the source returns.
pub data CodecErrorCode : Type 0 where
  out_of_limit invalid_input : CodecErrorCode

abbrev pub raw_min_bytes : ℕ
raw_min_bytes = 7

unfoldable pub protocol_code : Protocol → ℕ
protocol_code tcp = 0
protocol_code (ext p) = p
protocol_code quic = 1

unfoldable pub area_code : EndpointArea → ℕ
area_code lan = 0
area_code server_reflexive = 32
area_code wan = 64
area_code mapped = 96

unfoldable pub version_code : SocketAddr → ℕ
version_code (v4 a p) = 0
version_code (v6 a p f s) = 16

unfoldable pub flags : Endpoint → ℕ
flags e =
    bit_or (bit_or (bit_or 0 (protocol_code e.protocol)) (area_code e.area)) (version_code e.addr)

-- Big-endian octets.
abbrev pub octets_v4 : Ipv4Addr → List ℕ
octets_v4 a = a.o0 ∷ a.o1 ∷ a.o2 ∷ a.o3 ∷ []

abbrev pub octets_v6 : Ipv6Addr → List ℕ
octets_v6 a =
    a.s0 / 256
    ∷ a.s0 % 256
    ∷ a.s1 / 256
    ∷ a.s1 % 256
    ∷ a.s2 / 256
    ∷ a.s2 % 256
    ∷ a.s3 / 256
    ∷ a.s3 % 256
    ∷ a.s4 / 256
    ∷ a.s4 % 256
    ∷ a.s5 / 256
    ∷ a.s5 % 256
    ∷ a.s6 / 256
    ∷ a.s6 % 256
    ∷ a.s7 / 256
    ∷ a.s7 % 256
    ∷ []

abbrev pub port_bytes : ℕ → List ℕ
port_bytes p = p % 256 ∷ p / 256 ∷ []

unfoldable pub encode_addr : SocketAddr → List ℕ → Result CodecErrorCode (List ℕ × List ℕ)
encode_addr (v4 a p) rest =
    if ltb (length rest) 4 then err out_of_limit else ok (port_bytes p ++ octets_v4 a, drop 4 rest)
encode_addr (v6 a p f s) rest =
    if ltb (length rest) 16
    then err out_of_limit
    else ok (port_bytes p ++ octets_v6 a, drop 16 rest)

unfoldable pub raw_encode_no_flags : Endpoint → List ℕ → Result CodecErrorCode (List ℕ × List ℕ)
unfolding encode_addr
raw_encode_no_flags e buf = encode_addr e.addr (drop 2 buf)

unfoldable pub raw_measure : Endpoint → ℕ
raw_measure e = elim e.addr [ v4 a p ↦ 7 | v6 a p f s ↦ 19 ]

-- `Protocol::Ext(n)` with `n < 8 || n >= 16` is refused.
abbrev is_refused : Protocol → Bool
is_refused (ext n) = ltb n 8 || leb 16 n
is_refused tcp = false
is_refused quic = false

unfoldable pub raw_encode : Endpoint → List ℕ → Result CodecErrorCode (List ℕ × List ℕ)
unfolding flags raw_encode_no_flags
raw_encode e buf =
    if is_refused e.protocol
    then err invalid_input
    else if ltb (length buf) raw_min_bytes
    then err out_of_limit
    else elim (raw_encode_no_flags e (drop 1 buf)) [
      | ok (w, rest) ↦ ok (flags e ∷ w, rest)
      | err c ↦ err c
    ]

unfoldable pub decode_protocol : ℕ → Result CodecErrorCode Protocol
decode_protocol n =
    if n == 0
    then ok tcp
    else if n == 1
    then ok quic
    else if ltb n 8 || leb 16 n
    then err invalid_input
    else ok (ext n)

unfoldable pub decode_area : ℕ → EndpointArea
decode_area n =
    if n == 0
    then lan
    else if n == 32
    then server_reflexive
    else if n == 64
    then wan
    else if n == 96
    then mapped
    else lan

abbrev word : List ℕ → ℕ → ℕ
word b i = get_or b i 0 * 256 + get_or b (suc i) 0

abbrev read_v4 : List ℕ → Ipv4Addr
read_v4 b = record { o0 = get_or b 0 0; o1 = get_or b 1 0; o2 = get_or b 2 0; o3 = get_or b 3 0 }

abbrev read_v6 : List ℕ → Ipv6Addr
read_v6 b = record {
  s0 = word b 0;
  s1 = word b 2;
  s2 = word b 4;
  s3 = word b 6;
  s4 = word b 8;
  s5 = word b 10;
  s6 = word b 12;
  s7 = word b 14;
}

unfoldable pub decode_addr : Bool → ℕ → List ℕ → Result CodecErrorCode (SocketAddr × List ℕ)
decode_addr true p buf =
    if ltb (length buf) 16 then err out_of_limit else ok (v6 (read_v6 buf) p 0 0, drop 16 buf)
decode_addr false p buf = ok (v4 (read_v4 buf) p, drop 4 buf)

-- The reads at fixed places are in range by the length check of `raw_decode`.
unfoldable pub raw_decode_no_flags : ℕ → List ℕ → Result CodecErrorCode (Endpoint × List ℕ)
raw_decode_no_flags flags buf = elim (decode_protocol (bit_and flags 0x0f)) [
  | err c ↦ err c
  | ok protocol ↦
      elim (decode_addr (bit_and flags 0x10 == 16) (get_or buf 0 0 + get_or buf 1 0 * 256)
        (drop 2 buf)) [
          | err c ↦ err c
          | ok (addr, rest) ↦ ok (
            record { area = decode_area (bit_and flags 0x60); protocol = protocol; addr = addr },
            rest,
          )
        ]
]

unfoldable pub raw_decode : List ℕ → Result CodecErrorCode (Endpoint × List ℕ)
unfolding raw_decode_no_flags
raw_decode buf =
    if ltb (length buf) raw_min_bytes
    then err out_of_limit
    else raw_decode_no_flags (get_or buf 0 0) (drop 1 buf)

-- What the encoding keeps of an address: the flow label and the scope of an IPv6 address are lost.
abbrev pub without_flow_and_scope : SocketAddr → SocketAddr
without_flow_and_scope (v4 a p) = v4 a p
without_flow_and_scope (v6 a p f s) = v6 a p 0 0

-- The values that the types of the source allow.
abbrev pub IsAddr : SocketAddr → Type 0
IsAddr (v4 a p) = IsIpv4 a × (p < 65536)
IsAddr (v6 a p f s) = IsIpv6 a × (p < 65536) × (f < 2 ^ 32) × (s < 2 ^ 32)

abbrev pub IsProtocol : Protocol → Type 0
IsProtocol (ext n) = (8 ≤ n) × (n < 16)
IsProtocol tcp = Unit
IsProtocol quic = Unit

pub record IsEncodable (e : Endpoint) : Type 0 where
  pub protocol_ok : IsProtocol e.protocol
  pub addr_ok : IsAddr e.addr
