-- ===== src/TunnelManager/Entries/Steps.antt =====
-- Each operation on the registered tunnels of a peer (TunnelManager/Entries) keeps the manager in order.
use bucky_p2p.Base.{
  ℕ, ◌≡◌, inl, inr, refl, Bool, true, false, not, Option, some, List, [], ◌∷◌, ◌++◌, arith, if_both,
  is_empty, any, keep, All, All-keep, All-get, Bool-cases, Option-cases, get, ok, P2pResult,
}
use bucky_p2p.Identity.{P2pId, id_eq, is_default}
use bucky_p2p.TunnelManager.{Instant, Tunnel, TunnelEntry, TunnelEntries, TunnelManager}
use bucky_p2p.TunnelManager.Upgrades.{is_proxy, remove_proxy_upgrade, reconcile_proxy_upgrade_state}
use bucky_p2p.TunnelManager.Entries
use bucky_p2p.TunnelManager.Entries.Peers.{
  IsPeer, OfPeer, Distinct, Distinct-keep, Distinct-append_new, OfPeer-append_new,
  is_empty-append_new, mark_published-IsPeer,
}
use bucky_p2p.TunnelManager.Entries.Covered.{
  remove-Covered, same-Covered, reconcile-Covered, upgrade_of_registered-Covered,
}
use bucky_p2p.TunnelManager.Entries.Writes.{
  IsManager, insert-IsManager, reconciled-IsManager, pruned-IsPeerMap, pruned-other,
}

-- What a client has kept of a peer, when it has not asked which of its tunnels are available.
own_entries :
    (m : TunnelManager) (id : P2pId)
    → IsManager m
    → All (OfPeer id) (Entries.entries_of (get id m.tunnels))
      × Distinct (Entries.entries_of (get id m.tunnels))
own_entries m id v = elim (Option-cases (get id m.tunnels)) [
  | inl e ↦ rw e (tt, tt)
  | inr (es, e) ↦ let own = All-get IsPeer id es m.tunnels v.peers.1 e in rw e (own.1, own.2)
]

found_entry :
    (tunnel : Tunnel) (es : TunnelEntries) (entry : TunnelEntry)
    → Entries.find_entry tunnel es ≡ some entry
    → is_empty es ≡ false
unfolding Entries.find_entry
found_entry tunnel [] entry h = cc
found_entry tunnel (x ∷ xs) entry h = refl

live_direct :
    (available : Tunnel → Bool) (now : Instant) (tunnel : Tunnel) (es : TunnelEntries)
    → any (Entries.is_live_direct available now tunnel) es ≡ true
    → is_empty (keep (λ x. not (is_proxy x.tunnel.form)) es) ≡ false
live_direct available now tunnel [] h = cc
live_direct available now tunnel (x ∷ xs) h = ground (arith, live_direct available now tunnel xs)

module _ (available : Tunnel → Bool) (now : Instant) where
  pub looks_up-IsManager :
      (m : TunnelManager) (id : P2pId) (tunnel_id : ℕ)
      → IsManager m
      → IsManager (Entries.has_available_tunnel_id available now m id tunnel_id).0
  unfolding Entries.has_available_tunnel_id
  looks_up-IsManager m id tunnel_id v = elim (Option-cases (get id m.tunnels)) [
    | inl e ↦
        rw (e, Entries.has_available_tunnel_id)
          (reconciled-IsManager available now m m id v v.peers refl (λ j other. refl))
    | inr (es, e) ↦
        rw (e, Entries.has_available_tunnel_id)
          (reconciled-IsManager available now m (Entries.pruned available now m id es) id v
            (pruned-IsPeerMap available now m id es v.peers e) refl
            (pruned-other available now m id es))
  ]

  pub gets-IsManager :
      (activity : Tunnel → Option Instant) (m : TunnelManager) (id : P2pId)
      (filter : TunnelEntry → Bool) (allow : Bool)
      → IsManager m
      → IsManager (Entries.get_tunnel_with_filter available now activity m id filter allow).0
  unfolding Entries.get_tunnel_with_filter
  gets-IsManager activity m id filter allow v = elim (Option-cases (get id m.tunnels)) [
    | inl e ↦
        rw (e, Entries.get_tunnel_with_filter)
          (reconciled-IsManager available now m m id v v.peers refl (λ j other. refl))
    | inr (es, e) ↦
        rw (e, Entries.get_tunnel_with_filter)
          (reconciled-IsManager available now m (Entries.pruned available now m id es) id v
            (pruned-IsPeerMap available now m id es v.peers e) refl
            (pruned-other available now m id es))
  ]

  pub registers-IsManager :
      (m : TunnelManager) (tunnel : Tunnel)
      → IsManager m
      → IsManager (Entries.register_tunnel available now m tunnel).0
  unfolding Entries.register_tunnel
  registers-IsManager m tunnel v = elim (Bool-cases (is_default tunnel.remote_id)) [
    | inl q ↦ rw (q, Entries.register_tunnel) v
    | inr q ↦
        let id = tunnel.remote_id in
        let own = own_entries m id v in
        let old = Entries.entries_of (get id m.tunnels) in
        let es = Entries.available_entries available now old in
        let mine = All-keep (OfPeer id) (λ e. available e.tunnel) old own.0 in
        let distinct = Distinct-keep (λ e. available e.tunnel) old own.1 in
        elim (Option-cases (Entries.find_entry tunnel es)) [
          | inr (entry, e) ↦
              rw (q, Entries.register_tunnel, e)
                (insert-IsManager m id es
                  (reconcile_proxy_upgrade_state available m.state id (some es) now).0 v
                  (found_entry tunnel es entry e, mine, distinct)
                  (reconcile-Covered available m.state id (some es) now))
          | inl e ↦
              let new = Entries.new_entry now tunnel in
              let longer = es ++ new ∷ [] in
              let full = is_empty-append_new now tunnel new es in
              rw (q, Entries.register_tunnel, e)
                (insert-IsManager m id longer
                  (Entries.upgrade_of_registered available now m.state tunnel longer).0 v
                  (
                    full,
                    OfPeer-append_new now tunnel id new es refl mine,
                    Distinct-append_new now tunnel new es refl e distinct,
                  )
                  (upgrade_of_registered-Covered available now m.state tunnel longer full))
        ]
  ]

  pub publishes-IsManager :
      (m : TunnelManager) (tunnel : Tunnel)
      → IsManager m
      → IsManager (Entries.publish_registered_tunnel available now m tunnel).0
  unfolding Entries.publish_registered_tunnel
  publishes-IsManager m tunnel v = elim (Option-cases (get tunnel.remote_id m.tunnels)) [
    | inl e ↦ rw (e, Entries.publish_registered_tunnel) v
    | inr (es, e) ↦
        let id = tunnel.remote_id in
        let own = All-get IsPeer id es m.tunnels v.peers.1 e in
        elim (Option-cases (Entries.find_entry tunnel es)) [
          | inl f ↦ rw (e, Entries.publish_registered_tunnel, f) v
          | inr (entry, f) ↦
              rw (e, Entries.publish_registered_tunnel, f)
                (if_both (λ (r : TunnelManager × Bool × P2pResult (Unit {0})). IsManager r.0)
                  entry.published (m, false, ok tt) _ (λ q. v)
                  (λ q.
                    let marked = mark_published-IsPeer now tunnel id es own in
                    insert-IsManager m id (Entries.mark_published now tunnel es) m.state v marked (
                      same-Covered id (some (Entries.mark_published now tunnel es)) m.state
                        (ground (arith, marked.0)))))
        ]
  ]

  pub finalizes-IsManager :
      (m : TunnelManager) (id : P2pId) (tunnel : Tunnel)
      → IsManager m
      → IsManager (Entries.finalize_proxy_upgrade_success available now m id tunnel).0
  unfolding Entries.finalize_proxy_upgrade_success
  finalizes-IsManager m id tunnel v = elim (Bool-cases (is_proxy tunnel.form)) [
    | inl q ↦ rw (q, Entries.finalize_proxy_upgrade_success) v
    | inr q ↦
        let stays = reconciled-IsManager available now m m id v v.peers refl (λ j other. refl) in
        elim (Option-cases (get id m.tunnels)) [
          | inl e ↦ rw (q, e, Entries.finalize_proxy_upgrade_success) stays
          | inr (es, e) ↦
              let own = All-get IsPeer id es m.tunnels v.peers.1 e in
              let direct = keep (λ (x : TunnelEntry). not (is_proxy x.tunnel.form)) es in
              rw (q, e, Entries.finalize_proxy_upgrade_success)
                (if_both (λ (r : TunnelManager × List Tunnel × Bool × Bool). IsManager r.0)
                  (any (Entries.is_live_direct available now tunnel) es) _ _
                  (λ live.
                    insert-IsManager m id direct (remove_proxy_upgrade m.state id).0 v
                      (
                        live_direct available now tunnel es live,
                        All-keep (OfPeer id) (λ x. not (is_proxy x.tunnel.form)) es own.1,
                        Distinct-keep (λ x. not (is_proxy x.tunnel.form)) es own.2,
                      )
                      (remove-Covered id (some direct) m.state))
                  (λ live. stays))
        ]
  ]
