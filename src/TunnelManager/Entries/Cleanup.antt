-- ===== src/TunnelManager/Entries/Cleanup.antt =====
-- The cleanup of closed and idle tunnels (TunnelManager/Entries) keeps the manager in order.
use bucky_p2p.Base.{
  ◌≡◌, ◌⊎◌, inl, refl, Bool, true, false, none, some, [], ◌∷◌, arith, if_both, is_empty, keep,
  All-keep, HashMap, get,
}
use bucky_p2p.Identity.{P2pId, id_eq}
use bucky_p2p.TunnelManager.{Instant, ManagerState, Tunnel, TunnelEntries, TunnelManager}
use bucky_p2p.TunnelManager.Upgrades.{is_some, reconcile_proxy_upgrade_state}
use bucky_p2p.TunnelManager.Entries
use bucky_p2p.TunnelManager.Entries.Peers.{IsPeerMap, OfPeer, Distinct-keep}
use bucky_p2p.TunnelManager.Entries.Covered.{reconcile-Covered}
use bucky_p2p.TunnelManager.Entries.Writes.{IsManager}

module _ (available : Tunnel → Bool) (now : Instant) (retires : Tunnel → Bool) where
  abbrev left_of : TunnelEntries → TunnelEntries
  left_of es = keep (Entries.stays available now retires) es

  abbrev after_head : ManagerState → P2pId → TunnelEntries → ManagerState
  after_head s id es = (reconcile_proxy_upgrade_state available s id (some (left_of es)) now).0

  -- A peer that is not there does not come.
  cleanup_each-none :
      (s : ManagerState) (m : HashMap P2pId TunnelEntries) (j : P2pId)
      → get j m ≡ none
      → get j (Entries.cleanup_each available now retires s m).0 ≡ none
  unfolding Entries.cleanup_each get
  cleanup_each-none s [] j e = refl
  cleanup_each-none s ((id, es) ∷ rest) j e =
      ground (arith, cleanup_each-none (after_head s id es) rest j)

  cleanup_each-IsPeerMap :
      (s : ManagerState) (m : HashMap P2pId TunnelEntries)
      → IsPeerMap m
      → IsPeerMap (Entries.cleanup_each available now retires s m).0
  unfolding Entries.cleanup_each
  cleanup_each-IsPeerMap s [] v = v
  cleanup_each-IsPeerMap s ((id, es) ∷ rest) v =
      let s2 = after_head s id es in
      let others = (Entries.cleanup_each available now retires s2 rest).0 in
      let ih = cleanup_each-IsPeerMap s2 rest (v.0.1, v.1.1) in
      if_both IsPeerMap (is_empty (left_of es)) others ((id, left_of es) ∷ others) (λ q. ih)
        (λ q. (
          (cleanup_each-none s2 rest id v.0.0, ih.0),
          (
            (
              q,
              All-keep (OfPeer id) (Entries.stays available now retires) es v.1.0.1,
              Distinct-keep (Entries.stays available now retires) es v.1.0.2,
            ),
            ih.1,
          ),
        ))

  -- The upgrade of a peer stays if the peer is not in the map, or goes, or the peer keeps a tunnel.
  abbrev Kept :
      ManagerState
      → HashMap P2pId TunnelEntries
      → P2pId
      → HashMap P2pId TunnelEntries
      → ManagerState
      → Type 0
  Kept s m j m2 s2 =
      ((is_some (get j m) ≡ false) × (get j s2.proxy_upgrade_states ≡ get j s.proxy_upgrade_states))
      ⊎ (get j s2.proxy_upgrade_states ≡ none)
      ⊎ (is_some (get j m2) ≡ true)

  cleanup_each-Kept :
      (s : ManagerState) (m : HashMap P2pId TunnelEntries) (j : P2pId)
      → let r = Entries.cleanup_each available now retires s m in Kept s m j r.0 r.1
  unfolding Entries.cleanup_each get
  cleanup_each-Kept s [] j = inl (refl, refl)
  cleanup_each-Kept s ((id, es) ∷ rest) j =
      let s2 = after_head s id es in
      let cover = reconcile-Covered available s id (some (left_of es)) now j in
      let ih = cleanup_each-Kept s2 rest j in ground arith

  pub cleans_up-IsManager :
      (m : TunnelManager)
      → IsManager m
      → IsManager (Entries.cleanup_closed_tunnels available now retires m).0
  unfolding Entries.cleanup_closed_tunnels
  cleans_up-IsManager m v = record {
    peers = cleanup_each-IsPeerMap m.state m.tunnels v.peers;
    upgrades = λ j.
        let kept = cleanup_each-Kept m.state m.tunnels j in let had = v.upgrades j in ground arith;
  }
