-- ===== src/Endpoint/TextRoundTrip.antt =====
-- Printing and parsing of endpoints (Endpoint/Text).
use bucky_p2p.Base.{
  ℕ, ◌+◌, ◌/◌, ◌%◌, ◌<◌, ◌≡◌, refl, Option, none, some, List, [], ◌∷◌, arith, true, ok, get_or,
  drop, take, ◌⊎◌, inl,
}
use bucky_p2p.Net.{SocketAddr, v4, v6}
use bucky_p2p.Endpoint.{
  Endpoint, Protocol, ext, tcp, quic, EndpointArea, lan, server_reflexive, wan, mapped,
}
use bucky_p2p.Endpoint.Codec.{IsProtocol, IsAddr, IsEncodable}
use bucky_p2p.Endpoint.Text.{
  area_letter, version_digit, protocol_text, to_text, parse_area, parse_protocol, check_version,
  prefix_of, from_text,
}

parse_area-letter : (a : EndpointArea) → parse_area (area_letter a) ≡ ok a
unfolding parse_area area_letter
parse_area-letter lan = refl
parse_area-letter server_reflexive = refl
parse_area-letter wan = refl
parse_area-letter mapped = refl

prefix_of-cons :
    (a b c d e : ℕ) (rest : List ℕ)
    → a < 128
    → b < 128
    → c < 128
    → d < 128
    → e < 128
    → prefix_of (a ∷ b ∷ c ∷ d ∷ e ∷ rest) ≡ some (a ∷ b ∷ c ∷ d ∷ e ∷ [])
unfolding prefix_of
prefix_of-cons a b c d e rest ha hb hc hd he = ground arith

-- The three characters that a protocol is printed by are parsed to it.
IsText : Protocol → ℕ → ℕ → ℕ → Type 0
IsText p b c d =
    (protocol_text p ≡ b ∷ c ∷ d ∷ [])
    × (parse_protocol b c d ≡ ok p)
    × (b < 128)
    × (c < 128)
    × (d < 128)

protocol-IsText : (p : Protocol) → IsProtocol p → (b : ℕ) × (c : ℕ) × (d : ℕ) × IsText p b c d
unfolding IsText protocol_text parse_protocol
protocol-IsText (ext n) h = (b'e', b'0' + n / 10, b'0' + n % 10, ground arith)
protocol-IsText tcp h = (b't', b'c', b'p', (refl, refl, omega arith, omega arith, omega arith))
protocol-IsText quic h = (b'q', b'i', b'c', (refl, refl, omega arith, omega arith, omega arith))

letter-lt : (a : EndpointArea) → area_letter a < 128
unfolding area_letter
letter-lt lan = omega arith
letter-lt server_reflexive = omega arith
letter-lt wan = omega arith
letter-lt mapped = omega arith

digit-lt : (a : SocketAddr) → version_digit a < 128
unfolding version_digit
digit-lt (v4 x p) = omega arith
digit-lt (v6 x p f s) = omega arith

-- What the printer of socket addresses keeps: the flow label of an IPv6 address is not printed.
abbrev pub without_flow : SocketAddr → SocketAddr
without_flow (v4 a p) = v4 a p
without_flow (v6 a p f s) = v6 a p 0 s

check_version-without_flow :
    (a : SocketAddr) → check_version (version_digit a) (without_flow a) ≡ true
unfolding check_version version_digit
check_version-without_flow (v4 x p) = refl
check_version-without_flow (v6 x p f s) = refl

from_text-IsText :
    (print_addr : SocketAddr → List ℕ) (parse_addr : List ℕ → Option SocketAddr) (e : Endpoint)
    (b c d : ℕ)
    → parse_addr (print_addr e.addr) ≡ some (without_flow e.addr)
    → IsText e.protocol b c d
    → from_text parse_addr (to_text print_addr e) ≡ ok (record e { addr = without_flow e.addr })
unfolding to_text from_text IsText
from_text-IsText print_addr parse_addr e b c d h (text, parsed, hb, hc, hd) =
    let prefix =
      prefix_of-cons (area_letter e.area) (version_digit e.addr) b c d (print_addr e.addr)
        (letter-lt e.area) (digit-lt e.addr) hb hc hd in
    rw (text, prefix, parse_area-letter e.area, parsed, h, check_version-without_flow e.addr)

-- Printing an endpoint whose fields are in range and parsing the text gives the endpoint back, its
-- area included, but with the flow label of an IPv6 address set to 0; if the parser of socket
-- addresses gives back any address in range that their printer wrote, without its flow label.
pub from_text-to_text :
    (print_addr : SocketAddr → List ℕ) (parse_addr : List ℕ → Option SocketAddr)
    → ((a : SocketAddr) → IsAddr a → parse_addr (print_addr a) ≡ some (without_flow a))
    → (e : Endpoint) → IsEncodable e
    → from_text parse_addr (to_text print_addr e) ≡ ok (record e { addr = without_flow e.addr })
from_text-to_text print_addr parse_addr inverse e h =
    let (b, c, d, text) = protocol-IsText e.protocol h.protocol_ok in
    from_text-IsText print_addr parse_addr e b c d (inverse e.addr h.addr_ok) text

parse_area_sound : (c : ℕ) (a : EndpointArea) → parse_area c ≡ ok a → c ≡ area_letter a
unfolding parse_area area_letter
parse_area_sound c lan h = ground arith
parse_area_sound c server_reflexive h = ground arith
parse_area_sound c wan h = ground arith
parse_area_sound c mapped h = ground arith

parse_protocol_sound : (b c d : ℕ) (p : Protocol) → parse_protocol b c d ≡ ok p → IsProtocol p
unfolding parse_protocol
parse_protocol_sound b c d (ext n) h = ground arith
parse_protocol_sound b c d tcp h = tt
parse_protocol_sound b c d quic h = tt

check_version_sound : (c : ℕ) (a : SocketAddr) → check_version c a ≡ true → c ≡ version_digit a
unfolding check_version version_digit
check_version_sound c (v4 x p) h = ground arith
check_version_sound c (v6 x p f s) h = ground arith

prefix_of_sound :
    (s : List ℕ)
    → (prefix_of s ≡ none)
      ⊎ ((prefix_of s ≡ some (take 5 s))
          × (get_or (take 5 s) 0 0 ≡ get_or s 0 0)
          × (get_or (take 5 s) 1 0 ≡ get_or s 1 0))
unfolding prefix_of
prefix_of_sound [] = inl refl
prefix_of_sound (a ∷ []) = inl refl
prefix_of_sound (a ∷ b ∷ s) = ground arith

-- A text that is parsed names a protocol in range, and an address of the IP version that its second
-- byte says; its area is the one that its first byte names.
pub from_text_sound :
    (parse_addr : List ℕ → Option SocketAddr) (s : List ℕ) (e : Endpoint)
    → from_text parse_addr s ≡ ok e
    → IsProtocol e.protocol
      × (get_or s 0 0 ≡ area_letter e.area)
      × (get_or s 1 0 ≡ version_digit e.addr)
      × (parse_addr (drop 5 s) ≡ some e.addr)
unfolding from_text
from_text_sound parse_addr s e h = ground (
  arith,
  prefix_of_sound s,
  parse_area_sound (get_or (take 5 s) 0 0) e.area,
  parse_protocol_sound (get_or (take 5 s) 2 0) (get_or (take 5 s) 3 0) (get_or (take 5 s) 4 0)
      e.protocol,
  check_version_sound (get_or (take 5 s) 1 0) e.addr,
)
