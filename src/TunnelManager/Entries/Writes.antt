-- ===== src/TunnelManager/Entries/Writes.antt =====
-- The writes of the operations on registered tunnels (TunnelManager/Entries) keep the entries of the
-- peers in order, and each upgrade with a tunnel.
use bucky_p2p.Base.{
  ◌≡◌, inl, inr, refl, Bool, true, false, some, arith, if_both, is_empty, All-keep, All-insert,
  All-remove, All-get, ◌≟◌, Option-cases, HashMap, get, insert, get-insert, get-remove,
}
use bucky_p2p.Base.MapTotals.{NodupKeys-insert, NodupKeys-remove}
use bucky_p2p.Identity.{P2pId, id_eq}
use bucky_p2p.TunnelManager.{Instant, ManagerState, Tunnel, TunnelEntries, TunnelManager}
use bucky_p2p.TunnelManager.Upgrades.{is_some, reconcile_proxy_upgrade_state}
use bucky_p2p.TunnelManager.Entries
use bucky_p2p.TunnelManager.Entries.Peers.{IsPeer, IsPeerMap, OfPeer, Distinct-keep}
use bucky_p2p.TunnelManager.Entries.Covered.{
  HasTunnels, Covered, HasTunnels-Covered, reconcile-Covered,
}

-- Each peer of the map has entries, all of them its own and no candidate twice; every upgrade is one of
-- a peer with entries.
pub record IsManager (m : TunnelManager) : Type 0 where
  pub peers : IsPeerMap m.tunnels
  pub upgrades : HasTunnels m.tunnels m.state

pub get-insert_self :
    (id : P2pId) (es : TunnelEntries) (t : HashMap P2pId TunnelEntries)
    → is_some (get id (insert id es t)) ≡ true
get-insert_self id es t = ground (arith, get-insert id id es t)

get-insert_other :
    (id j : P2pId) (es : TunnelEntries) (t : HashMap P2pId TunnelEntries)
    → (id ≟ j) ≡ false
    → get j (insert id es t) ≡ get j t
get-insert_other id j es t h = ground (arith, get-insert id j es t)

-- The entries of a peer are written, with an upgrade that they account for.
pub insert-IsManager :
    (m : TunnelManager) (id : P2pId) (es : TunnelEntries) (s : ManagerState)
    → IsManager m
    → IsPeer (id, es)
    → Covered id (some es) m.state s
    → IsManager (record { tunnels = insert id es m.tunnels; state = s })
insert-IsManager m id es s v p cover = record {
  peers =
      (NodupKeys-insert id es m.tunnels v.peers.0, All-insert IsPeer id es m.tunnels p v.peers.1);
  upgrades =
      HasTunnels-Covered m.tunnels (insert id es m.tunnels) m.state s id (some es) v.upgrades cover
        (λ j other. get-insert_other id j es m.tunnels other)
        (λ full. get-insert_self id es m.tunnels);
}

-- The upgrade of a peer follows its entries.
pub reconciled-IsManager :
    (available : Tunnel → Bool) (now : Instant) (m m2 : TunnelManager) (id : P2pId)
    → IsManager m
    → IsPeerMap m2.tunnels
    → m2.state ≡ m.state
    → ((j : P2pId) → (id ≟ j) ≡ false → get j m2.tunnels ≡ get j m.tunnels)
    → IsManager (Entries.reconciled available now m2 id).0
unfolding Entries.reconciled
reconciled-IsManager available now m m2 id v p same frame =
    let o = get id m2.tunnels in
    let s = (reconcile_proxy_upgrade_state available m2.state id o now).0 in
    record {
      peers = p;
      upgrades =
          HasTunnels-Covered m.tunnels m2.tunnels m2.state s id o (rw same v.upgrades)
            (reconcile-Covered available m2.state id o now) frame
            (λ full. elim (Option-cases (get id m2.tunnels)) [
              | inl e ↦ let n = rw e at full in cc
              | inr (es, e) ↦ rw e refl
            ]);
    }

pub pruned-IsPeerMap :
    (available : Tunnel → Bool) (now : Instant) (m : TunnelManager) (id : P2pId)
    (es : TunnelEntries)
    → IsPeerMap m.tunnels
    → get id m.tunnels ≡ some es
    → IsPeerMap (Entries.pruned available now m id es).tunnels
unfolding Entries.pruned
pruned-IsPeerMap available now m id es p e =
    let left = Entries.available_entries available now es in
    let own = All-get IsPeer id es m.tunnels p.1 e in
    if_both IsPeerMap (is_empty left) _ _
      (λ q. (NodupKeys-remove id m.tunnels p.0, All-remove IsPeer id m.tunnels p.1))
      (λ q. (
        NodupKeys-insert id left m.tunnels p.0,
        All-insert IsPeer id left m.tunnels
            (
              q,
              All-keep (OfPeer id) (λ e. available e.tunnel) es own.1,
              Distinct-keep (λ e. available e.tunnel) es own.2,
            )
            p.1,
      ))

pub pruned-other :
    (available : Tunnel → Bool) (now : Instant) (m : TunnelManager) (id : P2pId)
    (es : TunnelEntries) (j : P2pId)
    → (id ≟ j) ≡ false
    → get j (Entries.pruned available now m id es).tunnels ≡ get j m.tunnels
unfolding Entries.pruned
pruned-other available now m id es j other =
    let left = Entries.available_entries available now es in
    ground (arith, get-insert id j left m.tunnels, get-remove id j m.tunnels)
