-- ===== src/PeerManager/Known.antt =====
-- What an SN knows of its peers (PeerManager) after any sequence of calls.
use bucky_p2p.Base.{
  ℕ, ◌≡◌, inl, inr, refl, Option, none, some, List, [], ◌∷◌, All, All-get, All-insert, All-remove,
  get, insert, Timestamp, Option-cases,
}
use bucky_p2p.Base.MapTotals.{NodupKeys, NodupKeys-insert, NodupKeys-remove}
use bucky_p2p.Identity.{P2pId, id_eq}
use bucky_p2p.Endpoint.{Endpoint, Protocol}
use bucky_p2p.NatType.Profile.{NatProfile}
use bucky_p2p.PeerManager.{
  CachedPeerInfo, PeerMap, has_wan_endpoint, update_given, add_given, remove_peer, add_peer_info,
  add_or_update_peer, add_or_update_peer_with_profile, set_net_profile, invalidate_net_profile,
}

-- A call of the peer manager, under its lock.
pub data PeerCall (Cert : Type 0) : Type 0 where
  adds : P2pId → Cert → PeerCall Cert
  updates : P2pId → Option Cert → ℕ → List (Protocol × ℕ) → List Endpoint → PeerCall Cert
  updates_profile :
      P2pId → Option Cert → List (Protocol × ℕ) → List Endpoint → NatProfile → PeerCall Cert
  sets_profile : P2pId → NatProfile → PeerCall Cert
  invalidates : P2pId → PeerCall Cert
  removes : P2pId → PeerCall Cert

module _ {Cert : Type 0} (endpoints : Cert → List Endpoint) where
  unfoldable pub manage : PeerMap endpoints → Timestamp × PeerCall Cert → PeerMap endpoints
  manage m (now, adds id desc) = add_peer_info endpoints m id desc now
  manage m (now, updates id device version ports eps) =
      add_or_update_peer endpoints m id device version ports eps now
  manage m (now, updates_profile id device ports eps profile) =
      add_or_update_peer_with_profile endpoints m id device ports eps profile now
  manage m (now, sets_profile id profile) = (set_net_profile endpoints m id profile).0
  manage m (now, invalidates id) = (invalidate_net_profile endpoints m id).0
  manage m (now, removes id) = remove_peer endpoints m id

  unfoldable pub manage_all :
      PeerMap endpoints → List (Timestamp × PeerCall Cert) → PeerMap endpoints
  unfolding manage
  manage_all m [] = m
  manage_all m (c ∷ cs) = manage_all (manage m c) cs

  -- The flag says what the certificate says.
  abbrev IsKnown : P2pId × CachedPeerInfo Cert → Type 0
  IsKnown (id, peer) = peer.is_wan ≡ has_wan_endpoint endpoints peer.desc

  -- The peers are distinct.
  abbrev pub IsPeerMap : PeerMap endpoints → Type 0
  IsPeerMap m = NodupKeys m × All IsKnown m

  insert-IsPeerMap :
      (m : PeerMap endpoints) (id : P2pId) (peer : CachedPeerInfo Cert)
      → IsPeerMap m
      → IsKnown (id, peer)
      → IsPeerMap (insert id peer m)
  insert-IsPeerMap m id peer v k =
      (NodupKeys-insert id peer m v.0, All-insert IsKnown id peer m k v.1)

  update_given-IsKnown :
      (id : P2pId) (peer : CachedPeerInfo Cert) (device : Option Cert)
      → IsKnown (id, peer)
      → IsKnown (id, update_given endpoints peer device)
  update_given-IsKnown id peer none k = k
  update_given-IsKnown id peer (some cert) k = refl

  add_given-IsPeerMap :
      (m : PeerMap endpoints) (id : P2pId) (device : Option Cert)
      (peer_of : Cert → CachedPeerInfo Cert)
      → IsPeerMap m
      → ((cert : Cert) → IsKnown (id, peer_of cert))
      → IsPeerMap (add_given endpoints m id device peer_of)
  add_given-IsPeerMap m id none peer_of v k = v
  add_given-IsPeerMap m id (some cert) peer_of v k = insert-IsPeerMap m id (peer_of cert) v (k cert)

  set_net_profile-IsPeerMap :
      (m : PeerMap endpoints) (id : P2pId) (profile : NatProfile)
      → IsPeerMap m
      → IsPeerMap (set_net_profile endpoints m id profile).0
  unfolding set_net_profile
  set_net_profile-IsPeerMap m id profile v = elim (Option-cases (get id m)) [
    | inl e ↦ rw (e, set_net_profile) v
    | inr (peer, e) ↦
        rw (e, set_net_profile) (insert-IsPeerMap m id _ v (All-get IsKnown id peer m v.1 e))
  ]

  manage-IsPeerMap :
      (m : PeerMap endpoints) (c : Timestamp × PeerCall Cert) → IsPeerMap m → IsPeerMap (manage m c)
  unfolding manage add_peer_info add_or_update_peer add_or_update_peer_with_profile
      invalidate_net_profile
  manage-IsPeerMap m (now, adds id desc) v = elim (Option-cases (get id m)) [
    | inl e ↦ rw (e, add_peer_info) (insert-IsPeerMap m id _ v refl)
    | inr (peer, e) ↦ rw (e, add_peer_info) (insert-IsPeerMap m id _ v refl)
  ]
  manage-IsPeerMap m (now, updates id device version ports eps) v = elim (Option-cases (get id m)) [
    | inl e ↦ rw (e, add_or_update_peer) (add_given-IsPeerMap m id device _ v (λ cert. refl))
    | inr (peer, e) ↦
        rw (e, add_or_update_peer)
          (insert-IsPeerMap m id _ v
            (update_given-IsKnown id peer device (All-get IsKnown id peer m v.1 e)))
  ]
  manage-IsPeerMap m (now, updates_profile id device ports eps profile) v =
      elim (Option-cases (get id m)) [
        | inl e ↦
            rw (e, add_or_update_peer_with_profile)
              (add_given-IsPeerMap m id device _ v (λ cert. refl))
        | inr (peer, e) ↦
            rw (e, add_or_update_peer_with_profile)
              (insert-IsPeerMap m id _ v
                (update_given-IsKnown id peer device (All-get IsKnown id peer m v.1 e)))
      ]
  manage-IsPeerMap m (now, sets_profile id profile) v = set_net_profile-IsPeerMap m id profile v
  manage-IsPeerMap m (now, invalidates id) v = set_net_profile-IsPeerMap m id _ v
  manage-IsPeerMap m (now, removes id) v = (NodupKeys-remove id m v.0, All-remove IsKnown id m v.1)

  manage_from-IsPeerMap :
      (m : PeerMap endpoints) (cs : List (Timestamp × PeerCall Cert))
      → IsPeerMap m
      → IsPeerMap (manage_all m cs)
  unfolding manage_all
  manage_from-IsPeerMap m [] v = v
  manage_from-IsPeerMap m (c ∷ cs) v =
      manage_from-IsPeerMap (manage m c) cs (manage-IsPeerMap m c v)

  -- After any calls, from no peer on: no peer is held twice, and of each that is held the flag of a
  -- public address is what the certificate it is held with says.
  pub manage_all-IsPeerMap : (cs : List (Timestamp × PeerCall Cert)) → IsPeerMap (manage_all [] cs)
  manage_all-IsPeerMap cs = manage_from-IsPeerMap [] cs (tt, tt)
