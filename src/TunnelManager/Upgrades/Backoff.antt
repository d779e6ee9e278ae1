-- ===== src/TunnelManager/Upgrades/Backoff.antt =====
-- The intervals between the attempts to replace a proxy tunnel (TunnelManager/Upgrades).
use bucky_p2p.Base.{
  ℕ, zero, suc, true, ◌+◌, ◌*◌, ◌^◌, ◌≡◌, ◌∙◌, refl, ap, min, false, Option, some, List, [], ◌∷◌,
  arith, length, get, insert, HashMap, if◌then◌else◌, get-insert, Duration, from_secs, ◌==◌,
}
use bucky_p2p.Identity.{P2pId, id_eq}
use bucky_p2p.TunnelManager.{ProxyUpgradeState, Instant, ManagerState}
use bucky_p2p.TunnelManager.Upgrades.{
  advance_proxy_upgrade_retry, new_upgrade, proxy_upgrade_max_interval, retried,
  on_proxy_upgrade_failed_generation, collect_due_proxy_upgrades, mark_due, is_upgrade_due,
}

-- The interval after a number of failures: four short ones, the configured one, and then its doublings.
unfoldable pub interval_after : ℕ → Duration → Duration
interval_after zero initial = from_secs 15
interval_after (suc zero) initial = from_secs 30
interval_after (suc (suc zero)) initial = from_secs 60
interval_after (suc (suc (suc zero))) initial = from_secs 120
interval_after (suc (suc (suc (suc zero)))) initial = initial
interval_after (suc (suc (suc (suc (suc k))))) initial =
    min (initial * 2 ^ suc k) proxy_upgrade_max_interval

abbrev HasFailed : ℕ → Duration → ProxyUpgradeState → Type 0
HasFailed n initial upgrade =
    (upgrade.retry_interval ≡ interval_after n initial) × (upgrade.short_retry_index ≡ min n 4)

doubled : (i k : ℕ) → i * 2 ^ suc (suc k) ≡ (i * 2 ^ suc k) * 2
doubled i k = let p : 2 ^ suc (suc k) ≡ 2 ^ suc k * 2 = omega arith in rw p (grind arith)

late :
    (upgrade : ProxyUpgradeState) (initial : Duration)
    → upgrade.short_retry_index ≡ 4
    → ((advance_proxy_upgrade_retry upgrade initial).retry_interval
        ≡ min (upgrade.retry_interval * 2) proxy_upgrade_max_interval)
      × ((advance_proxy_upgrade_retry upgrade initial).short_retry_index ≡ 4)
unfolding advance_proxy_upgrade_retry
late upgrade initial h = rw h (omega arith, refl)

advance-HasFailed :
    (n : ℕ) (initial : Duration) (upgrade : ProxyUpgradeState)
    → HasFailed n initial upgrade
    → HasFailed (suc n) initial (advance_proxy_upgrade_retry upgrade initial)
unfolding advance_proxy_upgrade_retry interval_after
advance-HasFailed zero i u h = rw h.1 (refl, refl)
advance-HasFailed (suc zero) i u h = rw h.1 (refl, refl)
advance-HasFailed (suc (suc zero)) i u h = rw h.1 (refl, refl)
advance-HasFailed (suc (suc (suc zero))) i u h = rw h.1 (refl, refl)
advance-HasFailed (suc (suc (suc (suc zero)))) i u h =
    let l = late u i h.1 in (l.0 ∙ ap (λ t. min (t * 2) proxy_upgrade_max_interval) h.0, l.1)
advance-HasFailed (suc (suc (suc (suc (suc k))))) i u h =
    let index : u.short_retry_index ≡ 4 = omega (arith, h.1) in
    let l = late u i index in
    let e = doubled i k in
    (l.0 ∙ ap (λ t. min (t * 2) proxy_upgrade_max_interval) h.0 ∙ omega arith, omega (arith, l.1))

-- One attempt of a generation: it is collected when it is due, which puts it in progress, and fails.
unfoldable pub attempt :
    ManagerState → Duration → P2pId → ℕ → Instant × Instant → ManagerState × Option Duration
attempt s initial remote_id generation (due, now) =
    on_proxy_upgrade_failed_generation (collect_due_proxy_upgrades s due).0 initial remote_id
      generation now

-- Attempts of one generation, each with the times at which it is collected and fails.
unfoldable pub attempts :
    ManagerState → Duration → P2pId → ℕ → List (Instant × Instant) → ManagerState
attempts s initial remote_id generation [] = s
attempts s initial remote_id generation (times ∷ rest) =
    attempts (attempt s initial remote_id generation times).0 initial remote_id generation rest

abbrev marked_at : Instant → ProxyUpgradeState → ProxyUpgradeState
marked_at now upgrade =
    if is_upgrade_due upgrade now then record upgrade { in_progress = true } else upgrade

get-mark_due :
    (k : P2pId) (now : Instant) (upgrade : ProxyUpgradeState) (m : HashMap P2pId ProxyUpgradeState)
    → get k m ≡ some upgrade
    → get k (mark_due m now).0 ≡ some (marked_at now upgrade)
unfolding get mark_due
get-mark_due k now upgrade [] h = cc
get-mark_due k now upgrade ((j, other) ∷ m) h = ground (arith, get-mark_due k now upgrade m)

retried_lem :
    (initial : Duration) (upgrade : ProxyUpgradeState) (now : Instant) (n : ℕ)
    → HasFailed n initial upgrade
    → let next = retried upgrade initial now in
      HasFailed (suc n) initial next
      × (next.next_attempt_at ≡ now + interval_after (suc n) initial)
      × (next.in_progress ≡ false)
      × (next.generation ≡ upgrade.generation)
unfolding advance_proxy_upgrade_retry
retried_lem initial upgrade now n h =
    let start : ProxyUpgradeState = record upgrade { in_progress = false } in
    let next = advance-HasFailed n initial start h in
    (next, ap (λ t. now + t) next.0, ground arith, ground arith)

module _ (initial : Duration) (remote_id : P2pId) (generation : ℕ) where
  failed_known :
      (s : ManagerState) (upgrade : ProxyUpgradeState) (now : Instant)
      → get remote_id s.proxy_upgrade_states ≡ some upgrade
      → upgrade.generation ≡ generation
      → let next = retried upgrade initial now in
        on_proxy_upgrade_failed_generation s initial remote_id generation now ≡ (
          record s { proxy_upgrade_states = insert remote_id next s.proxy_upgrade_states },
          some next.retry_interval,
        )
  unfolding on_proxy_upgrade_failed_generation
  failed_known s upgrade now e g =
      let same : (upgrade.generation == generation) ≡ true = ground arith in
      rw (e, on_proxy_upgrade_failed_generation, same) refl

  collected_known :
      (s : ManagerState) (upgrade : ProxyUpgradeState) (due : Instant)
      → get remote_id s.proxy_upgrade_states ≡ some upgrade
      → get remote_id (collect_due_proxy_upgrades s due).0.proxy_upgrade_states
        ≡ some (marked_at due upgrade)
  unfolding collect_due_proxy_upgrades
  collected_known s upgrade due e =
      ground (arith, get-mark_due remote_id due upgrade s.proxy_upgrade_states)

  -- After an attempt of an upgrade that has failed n times it has failed n + 1 times, and rests.
  attempt-HasFailed :
      (s : ManagerState) (upgrade : ProxyUpgradeState) (due now : Instant) (n : ℕ)
      → get remote_id s.proxy_upgrade_states ≡ some upgrade
      → upgrade.generation ≡ generation
      → HasFailed n initial upgrade
      → let wait = interval_after (suc n) initial in
        let after = attempt s initial remote_id generation (due, now) in
        (after.1 ≡ some wait)
        × ((next : ProxyUpgradeState) × (get remote_id after.0.proxy_upgrade_states ≡ some next)
            × (next.generation ≡ generation)
            × HasFailed (suc n) initial next
            × (next.next_attempt_at ≡ now + wait)
            × (next.in_progress ≡ false))
  unfolding attempt
  attempt-HasFailed s upgrade due now n e g h =
      let s2 = (collect_due_proxy_upgrades s due).0 in
      let u2 = marked_at due upgrade in
      let known = collected_known s upgrade due e in
      let g2 : u2.generation ≡ generation = ground arith in
      let interval : u2.retry_interval ≡ upgrade.retry_interval = ground arith in
      let index : u2.short_retry_index ≡ upgrade.short_retry_index = ground arith in
      let next = retried u2 initial now in
      let r = retried_lem initial u2 now n (interval ∙ h.0, index ∙ h.1) in
      rw (failed_known s2 u2 now known g2) (
        ap some r.0.0,
        (
          next,
          ground (arith, get-insert remote_id remote_id next s2.proxy_upgrade_states),
          r.3 ∙ g2,
          r.0,
          r.1,
          r.2,
        ),
      )

  attempts-HasFailed :
      (s : ManagerState) (upgrade : ProxyUpgradeState) (times : List (Instant × Instant)) (n : ℕ)
      → get remote_id s.proxy_upgrade_states ≡ some upgrade
      → upgrade.generation ≡ generation
      → HasFailed n initial upgrade
      → (last : ProxyUpgradeState) × (get remote_id
            (attempts s initial remote_id generation times).proxy_upgrade_states
          ≡ some last)
        × (last.generation ≡ generation)
        × HasFailed (n + length times) initial last
  unfolding attempts
  attempts-HasFailed s upgrade [] n e g h =
      let same : n + 0 ≡ n = omega arith in (upgrade, e, g, rw same h)
  attempts-HasFailed s upgrade ((due, now) ∷ times) n e g h =
      let (waits, (next, known, same, failed, at, rests)) =
        attempt-HasFailed s upgrade due now n e g h in
      let more : n + suc (length times) ≡ suc n + length times = omega arith in
      rw more (
        attempts-HasFailed (attempt s initial remote_id generation (due, now)).0 next times (suc n)
          known same failed)

-- A new upgrade of a peer is attempted some times and then again, each time collected at one time and
-- failing at another: it rests for the interval that the number of all these failures calls for,
-- counted from the last of them, and is not in progress any more.
pub on_proxy_upgrade_failed_generation-interval :
    (initial : Duration) (remote_id : P2pId) (generation : ℕ) (s : ManagerState)
    (started due now : Instant) (times : List (Instant × Instant))
    → get remote_id s.proxy_upgrade_states ≡ some (new_upgrade generation started)
    → let wait = interval_after (suc (length times)) initial in
      let after =
        attempt
          (attempts s initial remote_id generation times)
          initial
          remote_id
          generation
          (due, now) in
      (after.1 ≡ some wait)
      × ((upgrade : ProxyUpgradeState) × (get remote_id after.0.proxy_upgrade_states ≡ some upgrade)
          × (upgrade.retry_interval ≡ wait)
          × (upgrade.next_attempt_at ≡ now + wait)
          × (upgrade.in_progress ≡ false))
unfolding interval_after
on_proxy_upgrade_failed_generation-interval initial remote_id generation s started due now times e =
    let (last, known, g, h) =
      attempts-HasFailed initial remote_id generation s (new_upgrade generation started) times 0 e
        refl (refl, refl) in
    let count : 0 + length times ≡ length times = omega arith in
    let (waits, (next, found, same, failed, at, rests)) =
      attempt-HasFailed initial remote_id generation (attempts s initial remote_id generation times)
        last due now (length times) known g (rw count at h) in
    (waits, (next, found, failed.0, at, rests))
