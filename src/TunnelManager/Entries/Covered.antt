-- ===== src/TunnelManager/Entries/Covered.antt =====
-- An upgrade (TunnelManager/Upgrades) is kept only for a peer that has a tunnel.
use bucky_p2p.Base.{
  ◌+◌, ◌≡◌, ◌⊎◌, ◌∙◌, inl, inr, refl, Bool, true, false, not, ◌&&◌, ◌||◌, Option, none, some, [],
  ◌∷◌, arith, if◌then◌else◌, if_both, is_empty, ◌≟◌, ≟_iff, Bool-cases, HashMap, get, get-insert,
  get-remove, any,
}
use bucky_p2p.Identity.{P2pId, id_eq}
use bucky_p2p.TunnelManager.{Instant, ManagerState, Tunnel, TunnelEntries}
use bucky_p2p.TunnelManager.Upgrades.{
  is_some, is_proxy, remove_proxy_upgrade, insert_proxy_upgrade, reconcile_proxy_upgrade_state,
  new_upgrade, scan_entries, nothing_found,
}
use bucky_p2p.TunnelManager.Entries.{upgrade_of_registered}

abbrev pub nonempty : Option TunnelEntries → Bool
nonempty none = false
nonempty (some entries) = not (is_empty entries)

-- Every upgrade is one of a peer in the map.
abbrev pub HasTunnels : HashMap P2pId TunnelEntries → ManagerState → Type 0
HasTunnels m s = (j : P2pId) → (get j s.proxy_upgrade_states ≡ none) ⊎ (is_some (get j m) ≡ true)

-- The upgrades of the other peers stay, and that of the peer only where it has entries.
abbrev pub Covered : P2pId → Option TunnelEntries → ManagerState → ManagerState → Type 0
Covered id entries s s2 =
    (j : P2pId)
    → (get j s2.proxy_upgrade_states ≡ none)
      ⊎ (((id ≟ j) ≡ false) × (get j s2.proxy_upgrade_states ≡ get j s.proxy_upgrade_states))
      ⊎ (((id ≟ j) ≡ true) × (nonempty entries ≡ true))

pub HasTunnels-Covered :
    (m m2 : HashMap P2pId TunnelEntries) (s s2 : ManagerState) (id : P2pId)
    (entries : Option TunnelEntries)
    → HasTunnels m s
    → Covered id entries s s2
    → ((j : P2pId) → (id ≟ j) ≡ false → get j m2 ≡ get j m)
    → (nonempty entries ≡ true → is_some (get id m2) ≡ true)
    → HasTunnels m2 s2
HasTunnels-Covered m m2 s s2 id entries has cover frame own j = elim (cover j) [
  | inl e ↦ inl e
  | inr rest ↦ elim rest [
    | inl (other, same) ↦ elim (has j) [
      | inl e ↦ inl (same ∙ e)
      | inr t ↦ inr (rw (frame j other) t)
    ]
    | inr (self, some_entry) ↦
        let e : id ≡ j = (≟_iff id j).0 self in inr (rw (← e) (own some_entry))
  ]
]

pub remove-Covered :
    (id : P2pId) (entries : Option TunnelEntries) (s : ManagerState)
    → Covered id entries s (remove_proxy_upgrade s id).0
unfolding remove_proxy_upgrade
remove-Covered id entries s j = ground (arith, get-remove id j s.proxy_upgrade_states)

insert-Covered :
    (id : P2pId) (entries : Option TunnelEntries) (s : ManagerState) (now : Instant)
    → nonempty entries ≡ true
    → Covered id entries s (insert_proxy_upgrade s id now)
unfolding insert_proxy_upgrade
insert-Covered id entries s now h j =
    let u = new_upgrade (s.next_proxy_upgrade_generation + 1) now in
    ground (arith, get-insert id j u s.proxy_upgrade_states)

pub same-Covered :
    (id : P2pId) (entries : Option TunnelEntries) (s : ManagerState)
    → nonempty entries ≡ true
    → Covered id entries s s
same-Covered id entries s h j = elim (Bool-cases (id ≟ j)) [
  | inl self ↦ inr (inr (self, h))
  | inr other ↦ inr (inl (other, refl))
]

pub reconcile-Covered :
    (available : Tunnel → Bool) (s : ManagerState) (id : P2pId) (entries : Option TunnelEntries)
    (now : Instant)
    → Covered id entries s (reconcile_proxy_upgrade_state available s id entries now).0
unfolding reconcile_proxy_upgrade_state scan_entries
reconcile-Covered available s id none now = remove-Covered id none s
reconcile-Covered available s id (some []) now = remove-Covered id (some []) s
reconcile-Covered available s id (some (x ∷ xs)) now =
    let entries = some (x ∷ xs) in
    let P = λ (r : ManagerState × Bool). Covered id entries s r.0 in
    let found = scan_entries available nothing_found (x ∷ xs) in
    let kept =
      if found.published_proxy_only && not (is_some (get id s.proxy_upgrade_states))
      then (insert_proxy_upgrade s id now, true)
      else (s, false) in
    if_both P (not found.has_available || found.has_available_non_proxy) (remove_proxy_upgrade s id)
      kept (λ q. remove-Covered id entries s)
      (λ q.
        if_both P (found.published_proxy_only && not (is_some (get id s.proxy_upgrade_states)))
          (insert_proxy_upgrade s id now, true) (s, false)
          (λ q2. insert-Covered id entries s now refl) (λ q2. same-Covered id entries s refl))

pub upgrade_of_registered-Covered :
    (available : Tunnel → Bool) (now : Instant) (s : ManagerState) (tunnel : Tunnel)
    (entries : TunnelEntries)
    → is_empty entries ≡ false
    → Covered tunnel.remote_id
        (some entries)
        s
        (upgrade_of_registered available now s tunnel entries).0
unfolding upgrade_of_registered
upgrade_of_registered-Covered available now s tunnel entries full =
    let id = tunnel.remote_id in
    let P = λ (r : ManagerState × Bool). Covered id (some entries) s r.0 in
    let kept =
      if is_proxy tunnel.form && available tunnel
      then (insert_proxy_upgrade s id now, true)
      else reconcile_proxy_upgrade_state available s id (some entries) now in
    if_both P (any (λ e. not (is_proxy e.tunnel.form) && available e.tunnel) entries)
      (remove_proxy_upgrade s id) kept (λ q. remove-Covered id (some entries) s)
      (λ q.
        if_both P (is_proxy tunnel.form && available tunnel) (insert_proxy_upgrade s id now, true)
          (reconcile_proxy_upgrade_state available s id (some entries) now)
          (λ q2. insert-Covered id (some entries) s now (ground arith))
          (λ q2. reconcile-Covered available s id (some entries) now))
