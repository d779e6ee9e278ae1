-- ===== src/TunnelManager/Upgrades.antt =====
-- p2p-frame/src/tunnel/tunnel_manager.rs: the retries by which the proxy tunnels of a peer are to be
-- replaced by a direct one. `is_tunnel_available` reads the state of a tunnel, which other tasks
-- change: it is the parameter `available`, read once in an operation. The panic of a 64-bit generation
-- that runs out is left out.
pub mod Backoff
use bucky_p2p.Base.{
  ℕ, ◌+◌, ◌*◌, ◌-◌, min, Bool, true, false, not, ◌&&◌, ◌||◌, Option, none, some, List, [], ◌∷◌,
  ◌==◌, ltb, leb, get_or, length, if◌then◌else◌, HashMap, get, insert, remove, Duration, from_secs,
  u64_max,
}
use bucky_p2p.Identity.{P2pId, id_eq}
use bucky_p2p.Tcp.Ids.{TunnelForm, active, passive, proxy}
use bucky_p2p.TunnelManager.{
  Instant, ManagerState, ProxyUpgradeState, Tunnel, TunnelEntry, TunnelEntries,
}

abbrev pub proxy_upgrade_max_interval : Duration
proxy_upgrade_max_interval = from_secs 7200

abbrev pub proxy_upgrade_short_intervals : List Duration
proxy_upgrade_short_intervals = from_secs 15 ∷ from_secs 30 ∷ from_secs 60 ∷ from_secs 120 ∷ []

-- `Duration::MAX`.
abbrev duration_max : Duration
duration_max = u64_max * 1_000_000_000 + 999_999_999

abbrev pub new_upgrade : ℕ → Instant → ProxyUpgradeState
new_upgrade generation now =
    let retry_interval = get_or proxy_upgrade_short_intervals 0 0 in
    record {
      generation = generation;
      next_attempt_at = now + retry_interval;
      retry_interval = retry_interval;
      short_retry_index = 0;
      in_progress = false;
    }

unfoldable pub advance_proxy_upgrade_retry : ProxyUpgradeState → Duration → ProxyUpgradeState
advance_proxy_upgrade_retry upgrade initial_interval =
    let next = upgrade.short_retry_index + 1 in
    let short = length proxy_upgrade_short_intervals in
    if ltb next short
    then record upgrade {
      short_retry_index = next;
      retry_interval = get_or proxy_upgrade_short_intervals next 0;
    }
    else if next == short
    then record upgrade { short_retry_index = next; retry_interval = initial_interval }
    else record upgrade {
      retry_interval =
          min (min (upgrade.retry_interval * 2) duration_max) proxy_upgrade_max_interval;
    }

unfoldable pub insert_proxy_upgrade : ManagerState → P2pId → Instant → ManagerState
insert_proxy_upgrade s remote_id now =
    let generation = s.next_proxy_upgrade_generation + 1 in
    record s {
      next_proxy_upgrade_generation = generation;
      proxy_upgrade_states = insert remote_id (new_upgrade generation now) s.proxy_upgrade_states;
    }

abbrev pub is_some {ℓ} : {A : Type ℓ} → Option A → Bool
is_some none = false
is_some (some a) = true

-- `remove(..).is_some()`.
unfoldable pub remove_proxy_upgrade : ManagerState → P2pId → ManagerState × Bool
remove_proxy_upgrade s remote_id = (
  record s { proxy_upgrade_states = remove remote_id s.proxy_upgrade_states },
  is_some (get remote_id s.proxy_upgrade_states),
)

abbrev pub is_proxy : TunnelForm → Bool
is_proxy active = false
is_proxy passive = false
is_proxy proxy = true

-- What the loop over the available entries of a peer finds, up to its `break`.
pub record Scan : Type 0 where
  pub has_available : Bool
  pub has_available_non_proxy : Bool
  pub published_proxy_only : Bool

unfoldable pub scan_entries : (Tunnel → Bool) → Scan → TunnelEntries → Scan
scan_entries available found [] = found
scan_entries available found (entry ∷ entries) = elim (available entry.tunnel) [
  | false ↦ scan_entries available found entries
  | true ↦ elim (is_proxy entry.tunnel.form) [
    | false ↦ record found { has_available = true; has_available_non_proxy = true }
    | true ↦
        scan_entries available
          (record found {
            has_available = true;
            published_proxy_only = found.published_proxy_only && entry.published;
          })
          entries
  ]
]

abbrev pub nothing_found : Scan
nothing_found = record {
  has_available = false;
  has_available_non_proxy = false;
  published_proxy_only = true;
}

-- The second value says that the upgrade task is to be notified.
unfoldable pub reconcile_proxy_upgrade_state :
    (Tunnel → Bool) → ManagerState → P2pId → Option TunnelEntries → Instant → ManagerState × Bool
unfolding scan_entries remove_proxy_upgrade insert_proxy_upgrade
reconcile_proxy_upgrade_state available s remote_id none now = remove_proxy_upgrade s remote_id
reconcile_proxy_upgrade_state available s remote_id (some entries) now =
    let found = scan_entries available nothing_found entries in
    if not found.has_available || found.has_available_non_proxy
    then remove_proxy_upgrade s remote_id
    else if found.published_proxy_only && not (is_some (get remote_id s.proxy_upgrade_states))
    then (insert_proxy_upgrade s remote_id now, true)
    else (s, false)

-- `saturating_duration_since`, and the least of the waits.
abbrev sooner : Duration → Option Duration → Option Duration
sooner wait none = some wait
sooner wait (some other) = some (min wait other)

unfoldable pub next_wait : HashMap P2pId ProxyUpgradeState → Instant → Option Duration
next_wait [] now = none
next_wait ((remote_id, upgrade) ∷ rest) now =
    let later = next_wait rest now in
    if upgrade.in_progress then later else sooner (upgrade.next_attempt_at - now) later

unfoldable pub next_proxy_upgrade_wait : ManagerState → Instant → Option Duration
unfolding next_wait
next_proxy_upgrade_wait s now = next_wait s.proxy_upgrade_states now

abbrev pub is_upgrade_due : ProxyUpgradeState → Instant → Bool
is_upgrade_due upgrade now = not upgrade.in_progress && leb upgrade.next_attempt_at now

unfoldable pub mark_due :
    HashMap P2pId ProxyUpgradeState → Instant → HashMap P2pId ProxyUpgradeState × List (P2pId × ℕ)
mark_due [] now = ([], [])
mark_due ((remote_id, upgrade) ∷ rest) now =
    let (marked, due) = mark_due rest now in
    if is_upgrade_due upgrade now
    then (
      (remote_id, record upgrade { in_progress = true }) ∷ marked,
      (remote_id, upgrade.generation) ∷ due,
    )
    else ((remote_id, upgrade) ∷ marked, due)

unfoldable pub collect_due_proxy_upgrades : ManagerState → Instant → ManagerState × List (P2pId × ℕ)
unfolding mark_due
collect_due_proxy_upgrades s now =
    let (marked, due) = mark_due s.proxy_upgrade_states now in
    (record s { proxy_upgrade_states = marked }, due)

abbrev pub retried : ProxyUpgradeState → Duration → Instant → ProxyUpgradeState
retried upgrade initial_interval now =
    let next =
      advance_proxy_upgrade_retry (record upgrade { in_progress = false }) initial_interval in
    record next { next_attempt_at = now + next.retry_interval }

unfoldable pub on_proxy_upgrade_failed_generation :
    ManagerState → Duration → P2pId → ℕ → Instant → ManagerState × Option Duration
unfolding advance_proxy_upgrade_retry
on_proxy_upgrade_failed_generation s initial_interval remote_id generation now =
    elim (get remote_id s.proxy_upgrade_states) [
      | none ↦ (s, none)
      | some upgrade ↦
          if not (upgrade.generation == generation)
          then (s, none)
          else (let next = retried upgrade initial_interval now in
              (
                record s { proxy_upgrade_states = insert remote_id next s.proxy_upgrade_states },
                some next.retry_interval,
              ))
    ]

-- The check of `attempt_proxy_upgrade_generation` before it opens a tunnel.
unfoldable pub is_current_generation : ManagerState → P2pId → ℕ → Bool
is_current_generation s remote_id generation = elim (get remote_id s.proxy_upgrade_states) [
  | none ↦ false
  | some upgrade ↦ upgrade.generation == generation
]
