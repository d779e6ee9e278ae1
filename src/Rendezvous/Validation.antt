-- ===== src/Rendezvous/Validation.antt =====
-- What the validation of rendezvous messages lets through (Rendezvous/Protocol).
use bucky_p2p.Base.{
  ℕ, ◌≤◌, ◌≡◌, ◌≢◌, ◌↔◌, ◌⊎◌, inl, inr, refl, true, false, some, List, [], ◌∷◌, arith,
  if◌then◌else◌, length, All, ok,
}
use bucky_p2p.Net.{port}
use bucky_p2p.Endpoint.{
  Endpoint, Protocol, tcp, quic, server_reflexive, wan, mapped, endpoint_eq,
  rendezvous_eligible_area, rendezvous_reverse_connect_eligible_area, protocol_eq,
}
use bucky_p2p.Rendezvous.Protocol.{
  SnTunnelRendezvousOperation, reverse_connect_only, requires_endpoints, punches, reverse_connects,
  seen, check_endpoints, validate_rendezvous_endpoints, first_protocol,
}

module _ (hash : Endpoint → ℕ) where
  -- An endpoint that a request of this operation may carry.
  pub record IsUsable (operation : SnTunnelRendezvousOperation) (p : Protocol) (e : Endpoint)
      : Type 0 where
    pub same_protocol : e.protocol ≡ p
    pub stream : (e.protocol ≡ quic) ⊎ (e.protocol ≡ tcp)
    pub has_port : port e.addr ≢ 0
    pub eligible : rendezvous_reverse_connect_eligible_area e ≡ true
    pub placed : (reverse_connects operation ≡ true) ⊎ (e.area ≡ server_reflexive)

  -- No endpoint is a copy of an earlier one: of the same hash and equal.
  abbrev pub NoCopies : List Endpoint → List Endpoint → Type 0
  NoCopies unique [] = Unit
  NoCopies unique (e ∷ rest) = (seen hash e unique ≡ false) × NoCopies (e ∷ unique) rest

  eligible_either :
      (operation : SnTunnelRendezvousOperation) (e : Endpoint)
      → (if reverse_connects operation
          then rendezvous_reverse_connect_eligible_area e
          else rendezvous_eligible_area e)
        ≡ true
      → rendezvous_reverse_connect_eligible_area e ≡ true
  unfolding rendezvous_eligible_area rendezvous_reverse_connect_eligible_area
  eligible_either operation e h = ground arith

  reflexive_unless_reverse :
      (operation : SnTunnelRendezvousOperation) (e : Endpoint)
      → (if reverse_connects operation
          then rendezvous_reverse_connect_eligible_area e
          else rendezvous_eligible_area e)
        ≡ true
      → (reverse_connects operation ≡ true) ⊎ (e.area ≡ server_reflexive)
  unfolding rendezvous_eligible_area
  reflexive_unless_reverse operation e h = ground arith

  check_endpoints_sound :
      (operation : SnTunnelRendezvousOperation) (p : Protocol) (unique es : List Endpoint)
      → check_endpoints hash operation (some p) unique es ≡ ok tt
      → All (IsUsable operation p) es × NoCopies unique es
  unfolding check_endpoints
  check_endpoints_sound operation p unique [] h = (tt, tt)
  check_endpoints_sound operation p unique (e ∷ es) h = ground (
    arith,
    eligible_either operation e,
    reflexive_unless_reverse operation e,
    check_endpoints_sound operation p (e ∷ unique) es,
  )

  -- What an accepted list of endpoints is for an operation.
  pub record IsValid (operation : SnTunnelRendezvousOperation) (es : List Endpoint) : Type 0 where
    pub few : length es ≤ 8
    pub present : (requires_endpoints operation ≡ true) ↔ (es ≢ [])
    pub usable : (es ≡ []) ⊎ ((p : Protocol) × All (IsUsable operation p) es)
    pub punched : (punches operation ≡ false) ⊎ (first_protocol es ≡ some quic)
    pub distinct : NoCopies [] es

  -- An accepted list has at most 8 endpoints, and some exactly if the operation needs them; all are of
  -- one protocol, TCP or QUIC (QUIC where the operation punches), with a nonzero port and a public
  -- IPv4 address of an eligible area (server-reflexive unless the operation connects back), and none
  -- equals an earlier one of the same hash.
  pub validate_sound :
      (es : List Endpoint) (operation : SnTunnelRendezvousOperation)
      → validate_rendezvous_endpoints hash es operation ≡ ok tt
      → IsValid operation es
  unfolding validate_rendezvous_endpoints check_endpoints
  validate_sound [] operation h = record {
    few = omega arith;
    present = (λ r. ground arith, λ n. absurd (n refl));
    usable = inl refl;
    punched = ground arith;
    distinct = tt;
  }
  validate_sound (e ∷ es) operation h =
      let sound = check_endpoints_sound operation e.protocol [] (e ∷ es) in
      record {
        few = ground arith;
        present = (λ r. λ n. cc, λ n. ground arith);
        usable = inr (e.protocol, (ground (arith, sound)));
        punched = ground arith;
        distinct = (ground (arith, sound));
      }

  -- The derived hash reads the area, and equality does not: where the hash tells the areas apart, one
  -- address is accepted twice, as a static and as a mapped endpoint.
  pub duplicate_accepted :
      (e : Endpoint)
      → rendezvous_reverse_connect_eligible_area e ≡ true
      → e.protocol ≡ quic
      → port e.addr ≢ 0
      → hash (record e { area = wan }) ≢ hash (record e { area = mapped })
      → let es = record e { area = wan } ∷ record e { area = mapped } ∷ [] in
        (validate_rendezvous_endpoints hash es reverse_connect_only ≡ ok tt)
        × (endpoint_eq (record e { area = wan }) (record e { area = mapped }) ≡ true)
  unfolding validate_rendezvous_endpoints check_endpoints endpoint_eq
      rendezvous_reverse_connect_eligible_area
  duplicate_accepted e h q p d = ground arith
