-- ===== src/Service.antt =====
-- p2p-frame/src/sn/service/service.rs: where the service joins the probe scheduler and the peer table.
-- Both functions hold the lock of the scheduler while they write the table.
use bucky_p2p.Base.{
  ℕ, ◌≡◌, ◌⊎◌, inl, inr, refl, Bool, true, false, Option, none, some, List, get, get-insert,
  Option-cases, Bool-cases, arith, not, ◌&&◌, if◌then◌else◌,
}
use bucky_p2p.Base.MapTotals.{get-remove_self}
use bucky_p2p.Identity.{P2pId, id_eq}
use bucky_p2p.Endpoint.{Endpoint}
use bucky_p2p.NatType.Profile.{NatProfile, unknown_profile}
use bucky_p2p.NatProbe.{NatProbeDirective}
use bucky_p2p.NatProbe.Scheduler.{NatProbeScheduler, CmdTunnelId, ProbeTransition}
use bucky_p2p.NatProbe.Reports.{remove_peer_if_authority, matches_snapshot, remove_peer}
use bucky_p2p.PeerManager.{CachedPeerInfo, PeerMap, set_net_profile, invalidate_net_profile}

module _ {Cert : Type 0} (endpoints : Cert → List Endpoint) where
  abbrev write_profile : PeerMap endpoints → P2pId → Option NatProfile → PeerMap endpoints
  write_profile m id (some profile) = (set_net_profile endpoints m id profile).0
  write_profile m id none = (invalidate_net_profile endpoints m id).0

  abbrev write_update : PeerMap endpoints → P2pId → Option (Option NatProfile) → PeerMap endpoints
  write_update m id none = m
  write_update m id (some update) = write_profile m id update

  abbrev apply_nat_probe_transition :
      PeerMap endpoints → P2pId → ProbeTransition → PeerMap endpoints × Option NatProbeDirective
  apply_nat_probe_transition m id t = (write_update m id t.profile_update, t.directive)

  unfoldable pub finish_nat_probe_authority_reconcile :
      NatProbeScheduler
      → PeerMap endpoints
      → P2pId
      → CmdTunnelId
      → ℕ
      → Bool
      → NatProbeScheduler × PeerMap endpoints
  finish_nat_probe_authority_reconcile s m id tunnel generation present =
      if present
      then (s, m)
      else (let (s2, removed) = remove_peer_if_authority s id tunnel generation in
          if removed then (s2, (invalidate_net_profile endpoints m id).0) else (s2, m))

  -- No profile is held for the peer, or the one that says nothing.
  abbrev pub IsForgotten : PeerMap endpoints → P2pId → Type 0
  IsForgotten m id =
      (get id m ≡ none)
      ⊎ ((peer : CachedPeerInfo Cert) × (get id m ≡ some peer)
          × (peer.net_profile ≡ unknown_profile))

  invalidate-IsForgotten :
      (m : PeerMap endpoints) (id : P2pId)
      → IsForgotten (invalidate_net_profile endpoints m id).0 id
  unfolding invalidate_net_profile set_net_profile
  invalidate-IsForgotten m id = elim (Option-cases (get id m)) [
    | inl e ↦ rw (e, invalidate_net_profile, set_net_profile) (inl e)
    | inr (peer, e) ↦
        let p : CachedPeerInfo Cert = record peer { net_profile = unknown_profile } in
        let g = get-insert id id p m in
        rw (e, invalidate_net_profile, set_net_profile) (inr (p, ground arith, refl))
  ]

  -- Without the authority's path the registration is removed and its profile with it, or, when it is
  -- no longer the one that was looked at, nothing changes; with the path nothing changes.
  pub finish_nat_probe_authority_reconcile_lem :
      (s : NatProbeScheduler) (m : PeerMap endpoints) (id : P2pId) (tunnel : CmdTunnelId)
      (generation : ℕ) (present : Bool)
      → let after = finish_nat_probe_authority_reconcile s m id tunnel generation present in
        let stale = not present && matches_snapshot (get id s.peers) tunnel generation in
        ((stale ≡ true) × (get id after.0.peers ≡ none) × IsForgotten after.1 id)
        ⊎ ((stale ≡ false) × (after ≡ (s, m)))
  unfolding finish_nat_probe_authority_reconcile remove_peer_if_authority remove_peer
  finish_nat_probe_authority_reconcile_lem s m id tunnel generation true = inr (refl, refl)
  finish_nat_probe_authority_reconcile_lem s m id tunnel generation false =
      elim (Option-cases (get id s.peers)) [
        | inl e ↦ rw (e, remove_peer_if_authority, remove_peer) (inr (refl, refl))
        | inr (state, e) ↦ elim (Bool-cases (matches_snapshot (some state) tunnel generation)) [
          | inr q ↦ rw (e, remove_peer_if_authority, q) (inr (refl, refl))
          | inl q ↦
              rw (e, remove_peer_if_authority, remove_peer, q)
                (inl (refl, get-remove_self id s.peers, invalidate-IsForgotten m id))
        ]
      ]
