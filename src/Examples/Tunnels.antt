-- ===== src/Examples/Tunnels.antt =====
-- The theorems on the tunnel manager at concrete inputs.
use bucky_p2p.Base.{
  ℕ, ◌≡◌, ◌⊎◌, ◌+◌, refl, List, [], ◌∷◌, ◌++◌, Option, none, some, true, false, Bool, not, any,
  is_empty, get, from_secs, Duration,
}
use bucky_p2p.Identity.{P2pId, id_eq}
use bucky_p2p.Tcp.Ids.{active, proxy}
use bucky_p2p.TunnelManager.{
  RendezvousAttemptOwner, success, ManagerState, ProxyUpgradeState, Instant, Tunnel, TunnelEntries,
  TunnelManager,
}
use bucky_p2p.TunnelManager.Owners.{drop_owners, more_completions}
use bucky_p2p.TunnelManager.Owners.Calls.{
  OwnerCall, installs, attaches, completes, cancels, waits, takes, run,
}
use bucky_p2p.TunnelManager.Owners.Completions.{times, answers}
use bucky_p2p.TunnelManager.Owners.Answered.{new_manager, run-drop_owners-answers}
use bucky_p2p.TunnelManager.Owners.Crossing.{Arrival, survivor, install_rendezvous_owner-crossing}
use bucky_p2p.TunnelManager.Upgrades.{new_upgrade}
use bucky_p2p.TunnelManager.Upgrades.Backoff.{
  interval_after, attempt as attempt_upgrade, attempts, on_proxy_upgrade_failed_generation-interval,
}
use bucky_p2p.TunnelManager.Entries.{available_entries, get_tunnel_with_filter}
use bucky_p2p.TunnelManager.Entries.Preferred.{
  candidates, IsChosen, get_tunnel_with_filter-IsChosen,
}
use bucky_p2p.TunnelManager.Entries.Calls.{
  Reading, TunnelCall, registers, publishes, gets, comes_in, finalizes, cleans_up, collects_due,
  fails,
}
use bucky_p2p.TunnelManager.Entries.Calls
use bucky_p2p.TunnelManager.Entries.Invariant.{no_tunnels, run-IsManager}
use bucky_p2p.TunnelManager.Entries.Writes.{IsManager}
use bucky_p2p.Examples.Samples.{alice, bob, carol}

abbrev attempt : Bool → ℕ → List ℕ → RendezvousAttemptOwner
attempt initiator_local token waiting = record {
  seq = 5;
  initiator_local = initiator_local;
  cancel = token + 100;
  task = none;
  expected_incoming_reverse = some false;
  tunnel_id = token + 200;
  yielded = token + 300;
  winner_completions = waiting;
  token = token;
}

-- Bob opens a rendezvous to Alice while hers comes in, which completes; one to Carol stays open.
abbrev owner_calls : List OwnerCall
owner_calls =
    installs alice (attempt true 1 (7 ∷ [])) (some 41)
    ∷ installs alice (attempt false 2 []) (some 42)
    ∷ attaches alice 5 202 2 61 71
    ∷ installs carol (attempt true 3 (7 ∷ 8 ∷ [])) none
    ∷ waits carol 9 true 43 4
    ∷ takes carol 9 true
    ∷ completes alice 5 202 2 (success 90)
    ∷ cancels alice 5 202 2
    ∷ []

run-drop_owners-answers_example :
    let r = run bob new_manager owner_calls in answers 7 (r.2 ++ (drop_owners r.0).1) ≡ times 7 r.1
run-drop_owners-answers_example = run-drop_owners-answers 7 bob owner_calls

abbrev own : ℕ → Arrival
own token = (attempt true token (token ∷ []), some token)

abbrev theirs : ℕ → Arrival
theirs token = (attempt false token [], some token)

install_rendezvous_owner-crossing_example :
    (survivor alice bob new_manager (own 1) (theirs 2) ≡ some (own 1).0)
    × (survivor alice bob new_manager (theirs 2) (own 1) ≡ some (own 1).0)
    × (survivor bob alice new_manager (own 3) (theirs 4)
        ≡ some (more_completions (theirs 4).0 (3 ∷ [])))
    × (survivor bob alice new_manager (theirs 4) (own 3)
        ≡ some (more_completions (theirs 4).0 (3 ∷ [])))
unfolding bucky_p2p.Identity.bytes_lt get
install_rendezvous_owner-crossing_example =
    install_rendezvous_owner-crossing alice bob new_manager new_manager (own 1) (theirs 2) (own 3)
      (theirs 4) refl refl refl refl refl refl refl

abbrev upgrading : ManagerState
upgrading = record new_manager { proxy_upgrade_states = (carol, new_upgrade 3 1000) ∷ [] }

-- When an attempt is collected, and when it fails.
abbrev four_attempts : List (Instant × Instant)
four_attempts =
    (from_secs 20, from_secs 21)
    ∷ (from_secs 60, from_secs 61)
    ∷ (from_secs 150, from_secs 151)
    ∷ (from_secs 280, from_secs 281)
    ∷ []

on_proxy_upgrade_failed_generation-interval_example :
    let after =
      attempt_upgrade
        (attempts upgrading (from_secs 300) carol 3 four_attempts)
        (from_secs 300)
        carol
        3
        (from_secs 400, from_secs 401) in
    (after.1 ≡ some (from_secs 600))
    × ((upgrade : ProxyUpgradeState) × (get carol after.0.proxy_upgrade_states ≡ some upgrade)
        × (upgrade.retry_interval ≡ from_secs 600)
        × (upgrade.next_attempt_at ≡ from_secs 401 + from_secs 600)
        × (upgrade.in_progress ≡ false))
unfolding interval_after get bucky_p2p.Identity.P2pId-discrete bucky_p2p.Base.ℕ_discrete
on_proxy_upgrade_failed_generation-interval_example =
    on_proxy_upgrade_failed_generation-interval (from_secs 300) carol 3 upgrading 1000
      (from_secs 400) (from_secs 401) four_attempts refl

abbrev relayed_tunnel : Tunnel
relayed_tunnel = record {
  address = 1;
  remote_id = carol;
  tunnel_id = 11;
  candidate_id = 1;
  form = proxy;
  is_reverse = false;
}

abbrev direct_tunnel : Tunnel
direct_tunnel = record {
  address = 2;
  remote_id = carol;
  tunnel_id = 12;
  candidate_id = 2;
  form = active;
  is_reverse = false;
}

abbrev two_entries : TunnelEntries
two_entries =
    (record { tunnel = relayed_tunnel; updated_at = 50; published = true })
    ∷ (record { tunnel = direct_tunnel; updated_at = 40; published = true })
    ∷ []

abbrev with_two : TunnelManager
with_two = record { tunnels = (carol, two_entries) ∷ []; state = new_manager }

abbrev idle : Tunnel → Option Instant
idle tunnel = none

get_tunnel_with_filter-IsChosen_example :
    IsChosen idle
      (candidates idle (λ e. true) true (available_entries (λ t. true) 60 two_entries))
      (get_tunnel_with_filter (λ t. true) 60 idle with_two carol (λ e. true) true).1
unfolding get bucky_p2p.Identity.P2pId-discrete bucky_p2p.Base.ℕ_discrete
get_tunnel_with_filter-IsChosen_example =
    get_tunnel_with_filter-IsChosen idle (λ t. true) 60 with_two carol (λ e. true) true two_entries
      refl

abbrev at_time : Instant → TunnelCall → Reading × TunnelCall
at_time now call = (record { now = now; available = λ t. true; activity = idle }, call)

-- A proxy tunnel is registered twice, published and replaced by a direct one, which is cleaned up.
abbrev tunnel_calls : List (Reading × TunnelCall)
tunnel_calls =
    at_time 10 (registers relayed_tunnel)
    ∷ at_time 20 (registers relayed_tunnel)
    ∷ at_time 30 (publishes relayed_tunnel)
    ∷ at_time 40 collects_due
    ∷ at_time 50 (fails carol 1)
    ∷ at_time 60 (comes_in direct_tunnel)
    ∷ at_time 70 (finalizes carol direct_tunnel)
    ∷ at_time 80 (gets carol (λ e. true) true)
    ∷ at_time 90 (cleans_up (λ t. true))
    ∷ []

run-IsManager_example : IsManager (Calls.run (from_secs 300) no_tunnels tunnel_calls)
run-IsManager_example = run-IsManager (from_secs 300) tunnel_calls
