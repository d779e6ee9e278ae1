-- ===== src/TunnelManager/Entries.antt =====
-- p2p-frame/src/tunnel/tunnel_manager.rs: the registered tunnels of each peer. What other tasks change
-- in a tunnel is read once in an operation: `available` is `is_tunnel_available`, `activity` is
-- `latest_business_activity_at`. An operation says which tunnels it closes, whether it notifies the
-- upgrade task, and whether it announces the tunnel to the subscribers; a close is taken to succeed.
pub mod Preferred
pub mod Calls
pub mod Peers
pub mod Covered
pub mod Writes
pub mod Steps
pub mod Cleanup
pub mod Invariant
use bucky_p2p.Base.{
  ℕ, Bool, true, false, not, ◌&&◌, ◌||◌, Option, none, some, List, [], ◌∷◌, ◌++◌, map, ◌==◌, ltb,
  if◌then◌else◌, any, all, keep, is_empty, HashMap, get, insert, remove, P2pErrorCode, P2pResult,
  ok, err, ◌>>=◌,
}
use bucky_p2p.Identity.{P2pId, id_eq, is_default}
use bucky_p2p.Types.{TunnelId}
use bucky_p2p.TunnelManager.{
  Instant, TunnelRef, IncomingNotify, ManagerState, Tunnel, TunnelEntry, TunnelEntries,
  TunnelManager,
}
use bucky_p2p.TunnelManager.Owners.{take_incoming_waiter}
use bucky_p2p.TunnelManager.Upgrades.{
  is_proxy, is_some, reconcile_proxy_upgrade_state, remove_proxy_upgrade, insert_proxy_upgrade,
}

abbrev pub is_candidate : TunnelId → ℕ → TunnelEntry → Bool
is_candidate tunnel_id candidate_id entry =
    entry.tunnel.tunnel_id == tunnel_id && entry.tunnel.candidate_id == candidate_id

abbrev pub is_same_candidate : Tunnel → TunnelEntry → Bool
is_same_candidate tunnel entry = is_candidate tunnel.tunnel_id tunnel.candidate_id entry

abbrev later : Option Instant → Option Instant → Bool → Bool
later (some a) (some b) newer = ltb b a
later (some a) none newer = true
later none (some b) newer = false
later none none newer = newer

unfoldable pub preferred_tunnel_entry : (Tunnel → Option Instant) → TunnelEntry → TunnelEntry → Bool
preferred_tunnel_entry activity candidate current =
    later (activity candidate.tunnel) (activity current.tunnel)
      (ltb current.updated_at candidate.updated_at)

abbrev pub slot_with :
    (Tunnel → Option Instant) → Option TunnelEntry → TunnelEntry → Option TunnelEntry
slot_with activity none entry = some entry
slot_with activity (some latest) entry =
    if preferred_tunnel_entry activity entry latest then some entry else some latest

-- The loop over the entries, with the latest tunnel that is no proxy and the latest proxy.
unfoldable pub select_loop :
    (Tunnel → Option Instant)
    → Option TunnelEntry
    → Option TunnelEntry
    → TunnelEntries
    → Option TunnelEntry × Option TunnelEntry
unfolding preferred_tunnel_entry
select_loop activity direct relayed [] = (direct, relayed)
select_loop activity direct relayed (entry ∷ entries) = elim (is_proxy entry.tunnel.form) [
  | true ↦ select_loop activity direct (slot_with activity relayed entry) entries
  | false ↦ select_loop activity (slot_with activity direct entry) relayed entries
]

abbrev pub or_else {ℓ} : {A : Type ℓ} → Option A → Option A → Option A
or_else (some a) other = some a
or_else none other = other

unfoldable pub select_preferred_tunnel_entry :
    (Tunnel → Option Instant) → TunnelEntries → Option TunnelEntry
unfolding select_loop
select_preferred_tunnel_entry activity entries =
    let (direct, relayed) = select_loop activity none none entries in or_else direct relayed

abbrev tunnel_of : Option TunnelEntry → Option Tunnel
tunnel_of none = none
tunnel_of (some entry) = some entry.tunnel

-- The published entries first, and hidden ones if they may stand in.
unfoldable pub select_tunnel :
    (Tunnel → Option Instant) → (TunnelEntry → Bool) → Bool → TunnelEntries → Option Tunnel
unfolding select_preferred_tunnel_entry
select_tunnel activity filter allow_hidden_fallback entries =
    let fitting = keep filter entries in
    let published = keep (λ (e : TunnelEntry). e.published) fitting in
    tunnel_of (
      or_else (select_preferred_tunnel_entry activity published)
        (if allow_hidden_fallback then select_preferred_tunnel_entry activity fitting else none))

abbrev pub entries_of : Option TunnelEntries → TunnelEntries
entries_of none = []
entries_of (some entries) = entries

abbrev pub new_entry : Instant → Tunnel → TunnelEntry
new_entry now tunnel = record { tunnel = tunnel; updated_at = now; published = false }

unfoldable pub find_entry : Tunnel → TunnelEntries → Option TunnelEntry
find_entry tunnel [] = none
find_entry tunnel (entry ∷ entries) =
    if is_same_candidate tunnel entry then some entry else find_entry tunnel entries

-- The first entry of the candidate is marked as published.
unfoldable pub mark_published : Instant → Tunnel → TunnelEntries → TunnelEntries
mark_published now tunnel [] = []
mark_published now tunnel (entry ∷ entries) =
    let rest = mark_published now tunnel entries in
    if is_same_candidate tunnel entry
    then record entry { published = true; updated_at = now } ∷ entries
    else entry ∷ rest

-- What becomes of an incoming tunnel.
pub data IncomingEffect : Type 0 where
  hands_to : IncomingNotify → IncomingEffect
  closes : List Tunnel → IncomingEffect
  announces : Bool → IncomingEffect

module _ (available : Tunnel → Bool) (now : Instant) where
  abbrev pub available_entries : TunnelEntries → TunnelEntries
  available_entries entries = keep (λ e. available e.tunnel) entries

  -- The entries of a peer are written back, and the upgrade of the peer is brought in line.
  unfoldable pub reconciled : TunnelManager → P2pId → TunnelManager × Bool
  unfolding reconcile_proxy_upgrade_state
  reconciled m remote_id =
      let (s, notified) =
        reconcile_proxy_upgrade_state available m.state remote_id (get remote_id m.tunnels) now in
      (record m { state = s }, notified)

  -- `retain` and the removal of a peer that has no entry left.
  unfoldable pub pruned : TunnelManager → P2pId → TunnelEntries → TunnelManager
  pruned m remote_id entries =
      let left = available_entries entries in
      record m {
        tunnels =
            if is_empty left then remove remote_id m.tunnels else insert remote_id left m.tunnels;
      }

  unfoldable pub has_available_tunnel_id :
      TunnelManager → P2pId → TunnelId → TunnelManager × Bool × Bool
  unfolding reconciled pruned
  has_available_tunnel_id m remote_id tunnel_id = elim (get remote_id m.tunnels) [
    | none ↦ let (m2, notified) = reconciled m remote_id in (m2, false, notified)
    | some entries ↦
        let (m2, notified) = reconciled (pruned m remote_id entries) remote_id in
        (m2, any (λ e. e.tunnel.tunnel_id == tunnel_id) (available_entries entries), notified)
  ]

  unfoldable pub get_tunnel_with_filter :
      (Tunnel → Option Instant)
      → TunnelManager
      → P2pId
      → (TunnelEntry → Bool)
      → Bool
      → TunnelManager × Option Tunnel × Bool
  unfolding reconciled pruned select_tunnel
  get_tunnel_with_filter activity m remote_id filter allow_hidden_fallback =
      elim (get remote_id m.tunnels) [
        | none ↦ let (m2, notified) = reconciled m remote_id in (m2, none, notified)
        | some entries ↦
            let (m2, notified) = reconciled (pruned m remote_id entries) remote_id in
            (
              m2,
              select_tunnel activity filter allow_hidden_fallback (available_entries entries),
              notified,
            )
      ]

  abbrev pub get_tunnel :
      (Tunnel → Option Instant) → TunnelManager → P2pId → TunnelManager × Option Tunnel × Bool
  get_tunnel activity m remote_id = get_tunnel_with_filter activity m remote_id (λ e. true) true

  abbrev pub get_non_proxy_tunnel :
      (Tunnel → Option Instant) → TunnelManager → P2pId → TunnelManager × Option Tunnel × Bool
  get_non_proxy_tunnel activity m remote_id =
      get_tunnel_with_filter activity m remote_id (λ e. not (is_proxy e.tunnel.form)) false

  -- The upgrade of a peer to which a tunnel has been added.
  unfoldable pub upgrade_of_registered : ManagerState → Tunnel → TunnelEntries → ManagerState × Bool
  unfolding remove_proxy_upgrade insert_proxy_upgrade reconcile_proxy_upgrade_state
  upgrade_of_registered s tunnel entries =
      if any (λ e. not (is_proxy e.tunnel.form) && available e.tunnel) entries
      then remove_proxy_upgrade s tunnel.remote_id
      else if is_proxy tunnel.form && available tunnel
      then (insert_proxy_upgrade s tunnel.remote_id now, true)
      else reconcile_proxy_upgrade_state available s tunnel.remote_id (some entries) now

  -- A candidate that is registered already is refused, and closed if it is another object.
  abbrev pub register_duplicate :
      TunnelManager
      → Tunnel
      → TunnelEntries
      → TunnelEntry
      → TunnelManager × List Tunnel × Bool × P2pResult Tunnel
  register_duplicate m tunnel entries entry =
      let (s, notified) =
        reconcile_proxy_upgrade_state available m.state tunnel.remote_id (some entries) now in
      (
        record m { tunnels = insert tunnel.remote_id entries m.tunnels; state = s },
        (if entry.tunnel.address == tunnel.address then [] else tunnel ∷ []),
        notified,
        err P2pErrorCode.already_exists,
      )

  abbrev pub register_new :
      TunnelManager → Tunnel → TunnelEntries → TunnelManager × List Tunnel × Bool × P2pResult Tunnel
  register_new m tunnel entries =
      let longer = entries ++ new_entry now tunnel ∷ [] in
      let (s, notified) = upgrade_of_registered m.state tunnel longer in
      (
        record m { tunnels = insert tunnel.remote_id longer m.tunnels; state = s },
        [],
        notified,
        ok tunnel,
      )

  unfoldable pub register_tunnel :
      TunnelManager → Tunnel → TunnelManager × List Tunnel × Bool × P2pResult Tunnel
  unfolding upgrade_of_registered reconcile_proxy_upgrade_state find_entry
  register_tunnel m tunnel = elim (is_default tunnel.remote_id) [
    | true ↦ (m, [], false, ok tunnel)
    | false ↦
        let entries = available_entries (entries_of (get tunnel.remote_id m.tunnels)) in
        elim (find_entry tunnel entries) [
          | some entry ↦ register_duplicate m tunnel entries entry
          | none ↦ register_new m tunnel entries
        ]
  ]

  abbrev publish_entry :
      TunnelManager
      → Tunnel
      → TunnelEntries
      → Option TunnelEntry
      → TunnelManager × Bool × P2pResult (Unit {0})
  publish_entry m tunnel entries none = (m, false, err P2pErrorCode.not_found)
  publish_entry m tunnel entries (some entry) = if entry.published then (m, false, ok tt) else (
    record m { tunnels = insert tunnel.remote_id (mark_published now tunnel entries) m.tunnels },
    true,
    ok tt,
  )

  unfoldable pub publish_registered_tunnel :
      TunnelManager → Tunnel → TunnelManager × Bool × P2pResult (Unit {0})
  unfolding find_entry mark_published
  publish_registered_tunnel m tunnel = elim (get tunnel.remote_id m.tunnels) [
    | none ↦ (m, false, err P2pErrorCode.not_found)
    | some entries ↦ publish_entry m tunnel entries (find_entry tunnel entries)
  ]

  abbrev is_live_direct : Tunnel → TunnelEntry → Bool
  is_live_direct tunnel entry =
      entry.tunnel.address == tunnel.address
      && not (is_proxy entry.tunnel.form)
      && available entry.tunnel

  -- The proxy tunnels of a peer give way to a direct one that is live.
  abbrev pub replace_proxies :
      TunnelManager → P2pId → TunnelEntries → TunnelManager × List Tunnel × Bool
  replace_proxies m remote_id entries =
      let (s, notified) = remove_proxy_upgrade m.state remote_id in
      (
        record m {
          tunnels = insert remote_id (keep (λ e. not (is_proxy e.tunnel.form)) entries) m.tunnels;
          state = s;
        },
        map (λ e. e.tunnel) (keep (λ e. is_proxy e.tunnel.form) entries),
        notified,
      )

  abbrev pub finalize_known :
      TunnelManager → P2pId → Tunnel → TunnelEntries → TunnelManager × List Tunnel × Bool × Bool
  finalize_known m remote_id tunnel entries =
      if any (is_live_direct tunnel) entries
      then (let (m2, proxies, notified) = replace_proxies m remote_id entries in
          (m2, proxies, notified, true))
      else (let (m2, notified) = reconciled m remote_id in (m2, [], notified, false))

  unfoldable pub finalize_proxy_upgrade_success :
      TunnelManager → P2pId → Tunnel → TunnelManager × List Tunnel × Bool × Bool
  unfolding remove_proxy_upgrade reconciled
  finalize_proxy_upgrade_success m remote_id tunnel =
      if is_proxy tunnel.form then (m, [], false, false) else elim (get remote_id m.tunnels) [
        | none ↦ let (m2, notified) = reconciled m remote_id in (m2, [], notified, false)
        | some entries ↦ finalize_known m remote_id tunnel entries
      ]

  -- `retires` is `try_retire_idle`, which is asked only of an available tunnel.
  abbrev stays : (Tunnel → Bool) → TunnelEntry → Bool
  stays retires entry = available entry.tunnel && not (retires entry.tunnel)

  -- The loop of `cleanup_closed_tunnels`: the entries left, the state, what is removed.
  unfoldable pub cleanup_each :
      (Tunnel → Bool)
      → ManagerState
      → HashMap P2pId TunnelEntries
      → HashMap P2pId TunnelEntries × ManagerState × List Tunnel × Bool
  unfolding reconcile_proxy_upgrade_state
  cleanup_each retires s [] = ([], s, [], false)
  cleanup_each retires s ((remote_id, entries) ∷ rest) =
      let left = keep (stays retires) entries in
      let gone = map (λ e. e.tunnel) (keep (λ e. not (stays retires e)) entries) in
      let (s2, notified) = reconcile_proxy_upgrade_state available s remote_id (some left) now in
      let (others, s3, more_gone, more_notified) = cleanup_each retires s2 rest in
      (
        (if is_empty left then others else (remote_id, left) ∷ others),
        s3,
        gone ++ more_gone,
        notified || more_notified,
      )

  unfoldable pub cleanup_closed_tunnels :
      (Tunnel → Bool) → TunnelManager → TunnelManager × List Tunnel × Bool
  unfolding cleanup_each
  cleanup_closed_tunnels retires m =
      let (tunnels, s, gone, notified) = cleanup_each retires m.state m.tunnels in
      (record { tunnels = tunnels; state = s }, gone, notified)

  -- `register_tunnel` and then `publish_registered_tunnel`.
  abbrev publish_if :
      TunnelManager
      → List Tunnel
      → P2pResult Tunnel
      → TunnelManager × IncomingEffect × P2pResult Bool
  publish_if m closed (err e) = (m, closes closed, err e)
  publish_if m closed (ok tunnel) =
      let (m2, announced, result) = publish_registered_tunnel m tunnel in
      (m2, announces announced, (result >>= λ u. ok true))

  -- A tunnel that someone waits for is handed over; a reverse one that nobody waits for is closed.
  unfoldable pub on_incoming_tunnel :
      TunnelManager → Tunnel → TunnelManager × IncomingEffect × P2pResult Bool
  unfolding register_tunnel publish_registered_tunnel take_incoming_waiter
  on_incoming_tunnel m tunnel =
      let (s, waiter) =
        take_incoming_waiter m.state tunnel.remote_id tunnel.tunnel_id tunnel.is_reverse in
      let m2 : TunnelManager = record m { state = s } in
      elim waiter [
        | some notify ↦ (m2, hands_to notify, ok true)
        | none ↦ elim tunnel.is_reverse [
          | true ↦ (m2, closes (tunnel ∷ []), ok false)
          | false ↦
              let (m3, closed, notified, result) = register_tunnel m2 tunnel in
              publish_if m3 closed result
        ]
      ]
