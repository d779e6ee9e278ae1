-- ===== src/PeerManager.antt =====
-- p2p-frame/src/sn/service/peer_manager.rs: the peers that an SN knows. A certificate is an object of
-- the identity interface, of which only the endpoints are read: `Cert` and `endpoints` are parameters. The type
-- Peers and its find_peer are used nowhere and not modelled.
pub mod Known
use bucky_p2p.Base.{
  ℕ, ◌≡◌, ◌⊎◌, inl, inr, refl, Bool, true, false, not, Option, none, some, List, [], ◌∷◌, ◌≟◌, ltb,
  if◌then◌else◌, any, All, All-get, All-insert, All-remove, HashMap, get, insert, remove, Timestamp,
  Option-cases, arith,
}
use bucky_p2p.Identity.{P2pId, id_eq}
use bucky_p2p.Net.{SocketAddr, addr_eq}
use bucky_p2p.Endpoint.{Endpoint, Protocol, is_static_wan}
use bucky_p2p.NatType.Prediction.{unknown, observation_eq}
use bucky_p2p.NatType.Profile.{NatProfile, unknown_profile, mapping_at, is_fresh}

module _ {Cert : Type 0} (endpoints : Cert → List Endpoint) where
  abbrev pub has_wan_endpoint : Cert → Bool
  has_wan_endpoint desc = any is_static_wan (endpoints desc)

  abbrev pub contain_addr : Cert → SocketAddr → Bool
  contain_addr dev addr = any (λ e. e.addr ≟ addr) (endpoints dev)

pub record CachedPeerInfo (Cert : Type 0) : Type 0 where
  pub desc : Cert
  pub protocol_version : Option ℕ
  pub map_ports : List (Protocol × ℕ)
  pub last_send_time : Timestamp
  pub last_call_time : Timestamp
  pub local_eps : List Endpoint
  pub is_wan : Bool
  pub net_profile : NatProfile

unfoldable pub fresh_net_profile :
    {Cert : Type 0} → CachedPeerInfo Cert → Timestamp → Option NatProfile
unfolding mapping_at
fresh_net_profile peer now =
    if not (mapping_at peer.net_profile now ≟ unknown) then some peer.net_profile else none

module _ {Cert : Type 0} (endpoints : Cert → List Endpoint) where
  abbrev pub new_peer : Cert → Timestamp → CachedPeerInfo Cert
  new_peer desc send_time = record {
    desc = desc;
    protocol_version = none;
    map_ports = [];
    last_send_time = send_time;
    last_call_time = 0;
    local_eps = [];
    is_wan = has_wan_endpoint endpoints desc;
    net_profile = unknown_profile;
  }

  abbrev pub update_desc : CachedPeerInfo Cert → Cert → CachedPeerInfo Cert
  update_desc peer desc = record peer { desc = desc; is_wan = has_wan_endpoint endpoints desc }

  abbrev pub update_given : CachedPeerInfo Cert → Option Cert → CachedPeerInfo Cert
  update_given peer none = peer
  update_given peer (some device) = update_desc peer device

  abbrev pub PeerMap : Type 0
  PeerMap = HashMap P2pId (CachedPeerInfo Cert)

  unfoldable pub add_peer_info : PeerMap → P2pId → Cert → Timestamp → PeerMap
  add_peer_info m remote_id peer_desc now = elim (get remote_id m) [
    | none ↦ insert remote_id (new_peer peer_desc now) m
    | some peer ↦ insert remote_id (update_desc peer peer_desc) m
  ]

  abbrev pub remove_peer : PeerMap → P2pId → PeerMap
  remove_peer m remote_id = remove remote_id m

  abbrev pub find_peer : PeerMap → P2pId → Option (CachedPeerInfo Cert)
  find_peer m id = get id m

  -- A peer that is not known yet is added only with its certificate.
  abbrev pub add_given : PeerMap → P2pId → Option Cert → (Cert → CachedPeerInfo Cert) → PeerMap
  add_given m id none peer_of = m
  add_given m id (some device) peer_of = insert id (peer_of device) m

  unfoldable pub add_or_update_peer :
      PeerMap → P2pId → Option Cert → ℕ → List (Protocol × ℕ) → List Endpoint → Timestamp → PeerMap
  add_or_update_peer m id device version ports eps now = elim (get id m) [
    | some peer ↦
        insert id
          (record (update_given peer device) {
            protocol_version = some version;
            map_ports = ports;
            local_eps = eps;
          })
          m
    | none ↦ add_given m id device (λ cert. record (new_peer cert now) {
      protocol_version = some version;
      map_ports = ports;
      local_eps = eps;
    })
  ]

  unfoldable pub add_or_update_peer_with_profile :
      PeerMap
      → P2pId
      → Option Cert
      → List (Protocol × ℕ)
      → List Endpoint
      → NatProfile
      → Timestamp
      → PeerMap
  add_or_update_peer_with_profile m id device ports eps profile now = elim (get id m) [
    | some peer ↦
        insert id
          (record (update_given peer device) {
            map_ports = ports;
            local_eps = eps;
            net_profile = profile;
          })
          m
    | none ↦ add_given m id device (λ cert. record (new_peer cert now) {
      map_ports = ports;
      local_eps = eps;
      net_profile = profile;
    })
  ]

  unfoldable pub set_net_profile : PeerMap → P2pId → NatProfile → PeerMap × Bool
  set_net_profile m id profile = elim (get id m) [
    | none ↦ (m, false)
    | some peer ↦ (insert id (record peer { net_profile = profile }) m, true)
  ]

  unfoldable pub invalidate_net_profile : PeerMap → P2pId → PeerMap × Bool
  unfolding set_net_profile
  invalidate_net_profile m id = set_net_profile m id unknown_profile
