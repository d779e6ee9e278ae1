-- ===== src/Endpoint/RoundTrip.antt =====
-- Encoding and decoding of endpoints (Endpoint/Codec): what is written is read back.
use Prim.Native.Nat.{bit_and, bit_or}
use bucky_p2p.Base.{
  ℕ, suc, ◌+◌, ◌*◌, ◌/◌, ◌%◌, ◌≤◌, ◌<◌, ◌≡◌, refl, sym, Bool, true, false, ◌&&◌, List, [], ◌∷◌,
  ◌++◌, arith, ltb, get_or, ◌==◌, length, length-drop, drop-drop, drop, ok, holds_below,
  holds_below-at,
}
use bucky_p2p.Net.{SocketAddr, port, v4, v6}
use bucky_p2p.Endpoint.{
  Endpoint, Protocol, ext, tcp, quic, EndpointArea, lan, server_reflexive, wan, mapped,
}
use bucky_p2p.Endpoint.Codec.{
  protocol_code, area_code, version_code, flags, octets_v6, raw_measure, raw_encode, encode_addr,
  decode_protocol, decode_area, decode_addr, raw_decode, raw_decode_no_flags, IsEncodable,
  IsProtocol, IsAddr, without_flow_and_scope,
}

-- The three masks take a flag byte apart again.
abbrev bits_split : ℕ → ℕ → ℕ → Bool
bits_split area version n =
    let f = bit_or (bit_or (bit_or 0 n) area) version in
    bit_and f 0x0f == n && bit_and f 0x60 == area && bit_and f 0x10 == version

bits_split_all :
    (area : EndpointArea) (a : SocketAddr) (n : ℕ)
    → n < 16
    → bits_split (area_code area) (version_code a) n ≡ true
unfolding area_code version_code holds_below
bits_split_all lan (v4 a p) n h = holds_below-at (bits_split 0 0) 16 n h refl
bits_split_all lan (v6 a p f s) n h = holds_below-at (bits_split 0 16) 16 n h refl
bits_split_all server_reflexive (v4 a p) n h = holds_below-at (bits_split 32 0) 16 n h refl
bits_split_all server_reflexive (v6 a p f s) n h = holds_below-at (bits_split 32 16) 16 n h refl
bits_split_all wan (v4 a p) n h = holds_below-at (bits_split 64 0) 16 n h refl
bits_split_all wan (v6 a p f s) n h = holds_below-at (bits_split 64 16) 16 n h refl
bits_split_all mapped (v4 a p) n h = holds_below-at (bits_split 96 0) 16 n h refl
bits_split_all mapped (v6 a p f s) n h = holds_below-at (bits_split 96 16) 16 n h refl

protocol_code-lt : (p : Protocol) → IsProtocol p → protocol_code p < 16
unfolding protocol_code
protocol_code-lt (ext n) h = h.1
protocol_code-lt tcp h = omega arith
protocol_code-lt quic h = omega arith

flags_bits :
    (e : Endpoint)
    → IsProtocol e.protocol
    → (bit_and (flags e) 0x0f ≡ protocol_code e.protocol)
      × (bit_and (flags e) 0x60 ≡ area_code e.area)
      × (bit_and (flags e) 0x10 ≡ version_code e.addr)
unfolding flags
flags_bits e h =
    ground (arith, bits_split_all e.area e.addr (protocol_code e.protocol) (protocol_code-lt _ h))

decode_protocol-code : (p : Protocol) → IsProtocol p → decode_protocol (protocol_code p) ≡ ok p
unfolding decode_protocol protocol_code
decode_protocol-code (ext n) h = ground arith
decode_protocol-code tcp h = refl
decode_protocol-code quic h = refl

decode_area-code : (a : EndpointArea) → decode_area (area_code a) ≡ a
unfolding decode_area area_code
decode_area-code lan = refl
decode_area-code server_reflexive = refl
decode_area-code wan = refl
decode_area-code mapped = refl

join_split : (x : ℕ) → x / 256 * 256 + x % 256 ≡ x
join_split x = omega arith

not_short : (n k : ℕ) → k ≤ n → ltb n k ≡ false
not_short n k h = ground arith

-- The bytes after the flag byte.
abbrev tail_bytes : SocketAddr → List ℕ
tail_bytes (v4 a p) = p % 256 ∷ p / 256 ∷ a.o0 ∷ a.o1 ∷ a.o2 ∷ a.o3 ∷ []
tail_bytes (v6 a p f s) = p % 256 ∷ p / 256 ∷ octets_v6 a

decode_addr-tail :
    (a : SocketAddr) (more : List ℕ)
    → IsAddr a
    → (decode_addr (version_code a == 16) (port a) (drop 2 (tail_bytes a ++ more))
        ≡ ok (without_flow_and_scope a, more))
unfolding decode_addr version_code
decode_addr-tail (v4 a p) more h = refl
decode_addr-tail (v6 a p f s) more h =
    rw (not_short (length (octets_v6 a ++ more)) 16 (omega arith)) λ i. ok (
      v6
          (record {
            s0 = join_split a.s0 i;
            s1 = join_split a.s1 i;
            s2 = join_split a.s2 i;
            s3 = join_split a.s3 i;
            s4 = join_split a.s4 i;
            s5 = join_split a.s5 i;
            s6 = join_split a.s6 i;
            s7 = join_split a.s7 i;
          })
          p 0 0,
      more,
    )

port_split : (p : ℕ) → p < 65536 → p % 256 + p / 256 * 256 ≡ p
port_split p h = omega arith

-- What `raw_encode` writes.
abbrev encoded : Endpoint → List ℕ
encoded e = flags e ∷ tail_bytes e.addr

encode_addr-tail :
    (a : SocketAddr) (buf : List ℕ)
    → length (tail_bytes a) ≤ length buf
    → encode_addr a (drop 2 buf) ≡ ok (tail_bytes a, drop (length (tail_bytes a)) buf)
unfolding encode_addr
encode_addr-tail (v4 a p) buf h =
    rw (not_short (length (drop 2 buf)) 4 (omega (arith, length-drop 2 buf)), drop-drop 4 2 buf)
encode_addr-tail (v6 a p f s) buf h =
    rw (not_short (length (drop 2 buf)) 16 (omega (arith, length-drop 2 buf)), drop-drop 16 2 buf)

raw_measure-length : (e : Endpoint) → raw_measure e ≡ suc (length (tail_bytes e.addr))
unfolding raw_measure
raw_measure-length e = ground arith

raw_encode-encoded :
    (e : Endpoint) (buf : List ℕ)
    → IsEncodable e
    → raw_measure e ≤ length buf
    → raw_encode e buf ≡ ok (encoded e, drop (raw_measure e) buf)
unfolding raw_encode
raw_encode-encoded e buf h room = ground (
  arith,
  raw_measure-length e,
  length-drop 1 buf,
  drop-drop (length (tail_bytes e.addr)) 1 buf,
  encode_addr-tail e.addr (drop 1 buf),
)

raw_decode-parts :
    (ar : EndpointArea) (pr : Protocol) (a : SocketAddr) (more : List ℕ)
    → let e : Endpoint = record { area = ar; protocol = pr; addr = a } in
      IsEncodable e
      → raw_decode (encoded e ++ more) ≡ ok (record e { addr = without_flow_and_scope a }, more)
unfolding raw_decode
raw_decode-parts ar pr (v4 a p) more h =
    let e : Endpoint = record { area = ar; protocol = pr; addr = v4 a p } in
    ground (
      arith,
      flags_bits e h.protocol_ok,
      decode_protocol-code pr h.protocol_ok,
      decode_area-code ar,
      decode_addr-tail (v4 a p) more h.addr_ok,
      port_split p,
    )
raw_decode-parts ar pr (v6 a p f s) more h =
    let e : Endpoint = record { area = ar; protocol = pr; addr = v6 a p f s } in
    ground (
      arith,
      flags_bits e h.protocol_ok,
      decode_protocol-code pr h.protocol_ok,
      decode_area-code ar,
      decode_addr-tail (v6 a p f s) more h.addr_ok,
      port_split p,
    )

raw_decode-encoded :
    (e : Endpoint) (more : List ℕ)
    → IsEncodable e
    → raw_decode (encoded e ++ more) ≡ ok (record e { addr = without_flow_and_scope e.addr }, more)
raw_decode-encoded e more h = raw_decode-parts e.area e.protocol e.addr more h

-- An endpoint whose fields are in range is written into any buffer of at least its measure: the
-- encoder succeeds, writes as many bytes as `raw_measure` says and leaves the rest of the buffer;
-- whatever follows these bytes, the decoder gives what follows and the same endpoint, its area
-- included, but with the flow label and the scope of an IPv6 address set to 0.
pub raw_decode-raw_encode :
    (e : Endpoint) (buf more : List ℕ)
    → IsEncodable e
    → raw_measure e ≤ length buf
    → (w : List ℕ) × (raw_encode e buf ≡ ok (w, drop (raw_measure e) buf))
      × (length w ≡ raw_measure e)
      × (raw_decode (w ++ more) ≡ ok (record e { addr = without_flow_and_scope e.addr }, more))
raw_decode-raw_encode e buf more h room = (
  encoded e,
  raw_encode-encoded e buf h room,
  sym (raw_measure-length e),
  raw_decode-encoded e more h,
)

decode_protocol-IsProtocol : (n : ℕ) (p : Protocol) → decode_protocol n ≡ ok p → IsProtocol p
unfolding decode_protocol
decode_protocol-IsProtocol n (ext k) h = ground arith
decode_protocol-IsProtocol n tcp h = tt
decode_protocol-IsProtocol n quic h = tt

abbrev addr_size : SocketAddr → ℕ
addr_size (v4 a p) = 4
addr_size (v6 a p f s) = 16

decode_addr-rest :
    (six : Bool) (p : ℕ) (buf rest : List ℕ) (a : SocketAddr)
    → decode_addr six p buf ≡ ok (a, rest)
    → 4 ≤ length buf
    → (rest ≡ drop (addr_size a) buf) × (addr_size a ≤ length buf)
unfolding decode_addr
decode_addr-rest true p buf rest a h four = ground arith
decode_addr-rest false p buf rest a h four = ground arith

raw_measure-size : (e : Endpoint) → raw_measure e ≡ 3 + addr_size e.addr
unfolding raw_measure
raw_measure-size e = ground arith

raw_decode-parts_sound :
    (bits : ℕ) (body rest : List ℕ) (area : EndpointArea) (p : Protocol) (a : SocketAddr)
    → raw_decode_no_flags bits body ≡ ok (record { area = area; protocol = p; addr = a }, rest)
    → 6 ≤ length body
    → IsProtocol p × (rest ≡ drop (addr_size a) (drop 2 body)) × (addr_size a + 2 ≤ length body)
unfolding raw_decode_no_flags
raw_decode-parts_sound bits body rest area p a h six = ground (
  arith,
  length-drop 2 body,
  decode_protocol-IsProtocol (bit_and bits 0x0f) p,
  decode_addr-rest (bit_and bits 0x10 == 16) (get_or body 0 0 + get_or body 1 0 * 256) (drop 2 body)
      rest a,
)

-- Whatever bytes are decoded: on success the protocol is one that the encoder accepts, the buffer has
-- at least as many bytes as the measure of the endpoint, and exactly these were consumed.
pub raw_decode_sound :
    (buf rest : List ℕ) (e : Endpoint)
    → raw_decode buf ≡ ok (e, rest)
    → IsProtocol e.protocol × (raw_measure e ≤ length buf) × (rest ≡ drop (raw_measure e) buf)
unfolding raw_decode
raw_decode_sound buf rest e h = ground (
  arith,
  raw_decode-parts_sound (get_or buf 0 0) (drop 1 buf) rest e.area e.protocol e.addr,
  drop-drop 2 1 buf,
  length-drop 1 buf,
  drop-drop (addr_size e.addr) 3 buf,
  raw_measure-size e,
)
