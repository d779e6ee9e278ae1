-- ===== src/Endpoint/Text.antt =====
-- p2p-frame/src/endpoint.rs: an endpoint as text (`Display`, `FromStr`), as the list of its UTF-8
-- bytes. How `std::net::SocketAddr` prints and parses is a parameter.
use bucky_p2p.Base.{
  ℕ, ◌+◌, ◌-◌, ◌*◌, ◌/◌, ◌%◌, Bool, ◌&&◌, ◌||◌, Option, none, some, List, [], ◌∷◌, ◌++◌, ltb, leb,
  ◌==◌, if◌then◌else◌, length, take, drop, get_or, all, ok, err, ◌>>=◌, P2pResult, P2pErrorCode,
  not, fail_if, ◌>>◌,
}
use bucky_p2p.Net.{SocketAddr, v4, v6, is_ipv4}
use bucky_p2p.Endpoint.{
  Endpoint, Protocol, ext, tcp, quic, EndpointArea, lan, server_reflexive, wan, mapped,
}

unfoldable pub area_letter : EndpointArea → ℕ
area_letter lan = b'L'
area_letter server_reflexive = b'S'
area_letter wan = b'W'
area_letter mapped = b'M'

unfoldable pub version_digit : SocketAddr → ℕ
version_digit (v4 a p) = b'4'
version_digit (v6 a p f s) = b'6'

-- `{:02}` of a `u8`.
unfoldable pub two_digits : ℕ → List ℕ
two_digits n =
    if ltb n 100
    then (b'0' + n / 10) ∷ (b'0' + n % 10) ∷ []
    else (b'0' + n / 100) ∷ (b'0' + n / 10 % 10) ∷ (b'0' + n % 10) ∷ []

unfoldable pub protocol_text : Protocol → List ℕ
unfolding two_digits
protocol_text (ext n) = b'e' ∷ two_digits n
protocol_text tcp = b't' ∷ b'c' ∷ b'p' ∷ []
protocol_text quic = b'q' ∷ b'i' ∷ b'c' ∷ []

unfoldable pub to_text : (SocketAddr → List ℕ) → Endpoint → List ℕ
unfolding area_letter version_digit protocol_text
to_text print_addr e =
    area_letter e.area ∷ version_digit e.addr ∷ (protocol_text e.protocol ++ print_addr e.addr)

unfoldable pub parse_area : ℕ → P2pResult EndpointArea
parse_area c =
    if c == b'W'
    then ok wan
    else if c == b'M'
    then ok mapped
    else if c == b'L'
    then ok lan
    else if c == b'S'
    then ok server_reflexive
    else err P2pErrorCode.invalid_input

abbrev is_digit : ℕ → Bool
is_digit c = leb b'0' c && leb c b'9'

unfoldable pub parse_protocol : ℕ → ℕ → ℕ → P2pResult Protocol
parse_protocol a b c =
    if a == b't' && b == b'c' && c == b'p'
    then ok tcp
    else if (a == b'u' && b == b'd' && c == b'p') || (a == b'q' && b == b'i' && c == b'c')
    then ok quic
    else if a == b'e' && is_digit b && is_digit c
    then (let n = (b - b'0') * 10 + (c - b'0') in
        if ltb n 8 || leb 16 n then err P2pErrorCode.invalid_input else ok (ext n))
    else err P2pErrorCode.invalid_input

unfoldable pub check_version : ℕ → SocketAddr → Bool
check_version version a = (is_ipv4 a && version == b'4') || (not (is_ipv4 a) && version == b'6')

abbrev or_invalid {ℓ} : {A : Type ℓ} → Option A → P2pResult A
or_invalid (some a) = ok a
or_invalid none = err P2pErrorCode.invalid_input

-- `s[..5]`, if there are so many bytes and they are ASCII.
unfoldable pub prefix_of : List ℕ → Option (List ℕ)
prefix_of s = if leb 5 (length s) && all (λ c. ltb c 128) (take 5 s) then some (take 5 s) else none

unfoldable pub from_text : (List ℕ → Option SocketAddr) → List ℕ → P2pResult Endpoint
from_text parse_addr s = do
  prefix ← or_invalid (prefix_of s)
  area ← parse_area (get_or prefix 0 0)
  protocol ← parse_protocol (get_or prefix 2 0) (get_or prefix 3 0) (get_or prefix 4 0)
  addr ← or_invalid (parse_addr (drop 5 s))
  fail_if (not (check_version (get_or prefix 1 0) addr)) P2pErrorCode.invalid_input
  ok (record { area = area; protocol = protocol; addr = addr })
