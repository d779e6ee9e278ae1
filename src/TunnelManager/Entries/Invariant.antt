-- ===== src/TunnelManager/Entries/Invariant.antt =====
-- What holds of the registered tunnels and their upgrades after any calls (TunnelManager/Entries).
use bucky_p2p.Base.{
  ℕ, ◌≡◌, inl, inr, refl, Bool, not, Option, none, List, [], ◌∷◌, arith, ◌==◌, if_both, ◌≟◌, ≟_iff,
  Bool-cases, Option-cases, HashMap, get, get-insert, Duration, ok, err, P2pResult,
}
use bucky_p2p.Identity.{P2pId, id_eq}
use bucky_p2p.TunnelManager.{Instant, ManagerState, ProxyUpgradeState, Tunnel, TunnelManager}
use bucky_p2p.TunnelManager.Upgrades.{
  is_some, is_proxy, remove_proxy_upgrade, reconcile_proxy_upgrade_state,
}
use bucky_p2p.TunnelManager.Entries
use bucky_p2p.TunnelManager.Entries.Writes.{IsManager}
use bucky_p2p.TunnelManager.Entries.Steps.{
  looks_up-IsManager, gets-IsManager, registers-IsManager, publishes-IsManager, finalizes-IsManager,
}
use bucky_p2p.TunnelManager.Entries.Cleanup.{cleans_up-IsManager}
use bucky_p2p.TunnelManager.Owners
use bucky_p2p.TunnelManager.Upgrades
use bucky_p2p.TunnelManager.Owners.Answered.{new_manager}
use bucky_p2p.TunnelManager.Entries.Calls.{
  Reading, TunnelCall, looks_up, gets, registers, publishes, comes_in, finalizes, cleans_up,
  collects_due, fails, step, run,
}

-- The upgrades may be written as long as no peer comes to have one.
state-IsManager :
    (m : TunnelManager) (s : ManagerState)
    → IsManager m
    → ((j : P2pId)
        → get j m.state.proxy_upgrade_states ≡ none
        → get j s.proxy_upgrade_states ≡ none)
    → IsManager (record m { state = s })
state-IsManager m s v none_new = record {
  peers = v.peers;
  upgrades = λ j. elim (v.upgrades j) [ inl e ↦ inl (none_new j e) | inr t ↦ inr t ];
}

module _ (available : Tunnel → Bool) (now : Instant) where
  publish_if-IsManager :
      (m : TunnelManager) (closed : List Tunnel) (result : P2pResult Tunnel)
      → IsManager m
      → IsManager (Entries.publish_if available now m closed result).0
  publish_if-IsManager m closed (err e) v = v
  publish_if-IsManager m closed (ok tunnel) v = publishes-IsManager available now m tunnel v

  comes_in-IsManager :
      (m : TunnelManager) (tunnel : Tunnel)
      → IsManager m
      → IsManager (Entries.on_incoming_tunnel available now m tunnel).0
  unfolding Entries.on_incoming_tunnel
  comes_in-IsManager m tunnel v =
      let taken =
        Owners.take_incoming_waiter m.state tunnel.remote_id tunnel.tunnel_id tunnel.is_reverse in
      let m2 : TunnelManager = record m { state = taken.0 } in
      let v2 = state-IsManager m taken.0 v (λ j e. unfold Owners.take_incoming_waiter in e) in
      elim (Option-cases taken.1) [
        | inr (notify, e) ↦ rw (Entries.on_incoming_tunnel, e) v2
        | inl e ↦ elim (Bool-cases tunnel.is_reverse) [
          | inl r ↦ rw (Entries.on_incoming_tunnel, e, r) v2
          | inr r ↦
              let registered = Entries.register_tunnel available now m2 tunnel in
              rw (Entries.on_incoming_tunnel, e, r)
                (publish_if-IsManager registered.0 registered.1 registered.3
                  (registers-IsManager available now m2 tunnel v2))
        ]
      ]

mark_due-none :
    (m : HashMap P2pId ProxyUpgradeState) (now : Instant) (j : P2pId)
    → get j m ≡ none
    → get j (Upgrades.mark_due m now).0 ≡ none
unfolding Upgrades.mark_due get
mark_due-none [] now j e = refl
mark_due-none ((id, u) ∷ m) now j e = ground (arith, mark_due-none m now j)

collects-IsManager :
    (m : TunnelManager) (now : Instant)
    → IsManager m
    → IsManager (record m { state = (Upgrades.collect_due_proxy_upgrades m.state now).0 })
collects-IsManager m now v =
    state-IsManager m (Upgrades.collect_due_proxy_upgrades m.state now).0 v (λ j e.
      unfold Upgrades.collect_due_proxy_upgrades in
      mark_due-none m.state.proxy_upgrade_states now j e)

failed-none :
    (s : ManagerState) (initial : Duration) (id : P2pId) (generation : ℕ) (now : Instant)
    (j : P2pId)
    → get j s.proxy_upgrade_states ≡ none
    → get j
        (Upgrades.on_proxy_upgrade_failed_generation s initial id generation
          now).0.proxy_upgrade_states
      ≡ none
unfolding Upgrades.on_proxy_upgrade_failed_generation
failed-none s initial id generation now j e = elim (Option-cases (get id s.proxy_upgrade_states)) [
  | inl f ↦ rw (f, Upgrades.on_proxy_upgrade_failed_generation) e
  | inr (u, f) ↦
      let next = Upgrades.retried u initial now in
      rw (f, Upgrades.on_proxy_upgrade_failed_generation)
        (if_both (λ (r : ManagerState × Option Duration). get j r.0.proxy_upgrade_states ≡ none)
          (not (u.generation == generation)) (s, none) _ (λ q. e)
          (λ q. elim (Bool-cases (id ≟ j)) [
            | inl same ↦ let k : id ≡ j = (≟_iff id j).0 same in cc
            | inr other ↦ ground (arith, get-insert id j next s.proxy_upgrade_states)
          ]))
]

fails-IsManager :
    (m : TunnelManager) (initial : Duration) (id : P2pId) (generation : ℕ) (now : Instant)
    → IsManager m
    → IsManager (record m {
      state = (Upgrades.on_proxy_upgrade_failed_generation m.state initial id generation now).0;
    })
fails-IsManager m initial id generation now v =
    state-IsManager m
      (Upgrades.on_proxy_upgrade_failed_generation m.state initial id generation now).0 v
      (failed-none m.state initial id generation now)

step-IsManager :
    (initial : Duration) (m : TunnelManager) (c : Reading × TunnelCall)
    → IsManager m
    → IsManager (step initial m c)
unfolding step
step-IsManager initial m (r, looks_up id tunnel_id) v =
    looks_up-IsManager r.available r.now m id tunnel_id v
step-IsManager initial m (r, gets id filter allow) v =
    gets-IsManager r.available r.now r.activity m id filter allow v
step-IsManager initial m (r, registers tunnel) v = registers-IsManager r.available r.now m tunnel v
step-IsManager initial m (r, publishes tunnel) v = publishes-IsManager r.available r.now m tunnel v
step-IsManager initial m (r, comes_in tunnel) v = comes_in-IsManager r.available r.now m tunnel v
step-IsManager initial m (r, finalizes id tunnel) v =
    finalizes-IsManager r.available r.now m id tunnel v
step-IsManager initial m (r, cleans_up retires) v =
    cleans_up-IsManager r.available r.now retires m v
step-IsManager initial m (r, collects_due) v = collects-IsManager m r.now v
step-IsManager initial m (r, fails id generation) v =
    fails-IsManager m initial id generation r.now v

run_from-IsManager :
    (initial : Duration) (m : TunnelManager) (cs : List (Reading × TunnelCall))
    → IsManager m
    → IsManager (run initial m cs)
unfolding run
run_from-IsManager initial m [] v = v
run_from-IsManager initial m (c ∷ cs) v =
    run_from-IsManager initial (step initial m c) cs (step-IsManager initial m c v)

abbrev pub no_tunnels : TunnelManager
no_tunnels = record { tunnels = []; state = new_manager }

-- After any calls, whatever the tunnels do in the meantime: no peer stands twice in the map, each has
-- entries, all of them of tunnels to it, and no two of the same candidate; and an upgrade is pursued
-- only for a peer that has entries.
pub run-IsManager :
    (initial : Duration) (cs : List (Reading × TunnelCall)) → IsManager (run initial no_tunnels cs)
unfolding get
run-IsManager initial cs =
    run_from-IsManager initial no_tunnels cs (record { peers = (tt, tt); upgrades = λ j. inl refl })
