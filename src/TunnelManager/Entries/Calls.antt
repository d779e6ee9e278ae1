-- ===== src/TunnelManager/Entries/Calls.antt =====
-- Sequences of calls about the registered tunnels and their upgrades (TunnelManager/Entries,
-- TunnelManager/Upgrades). Each call comes with what it reads of the tunnels, and with its time.
use bucky_p2p.Base.{ℕ, Bool, Option, List, [], ◌∷◌, Duration}
use bucky_p2p.Identity.{P2pId}
use bucky_p2p.Types.{TunnelId}
use bucky_p2p.TunnelManager.{Instant, Tunnel, TunnelEntry, TunnelManager}
use bucky_p2p.TunnelManager.Upgrades.{
  collect_due_proxy_upgrades, on_proxy_upgrade_failed_generation,
}
use bucky_p2p.TunnelManager.Entries.{
  has_available_tunnel_id, get_tunnel_with_filter, register_tunnel, publish_registered_tunnel,
  finalize_proxy_upgrade_success, cleanup_closed_tunnels, on_incoming_tunnel,
}

pub record Reading : Type 0 where
  pub now : Instant
  pub available : Tunnel → Bool
  pub activity : Tunnel → Option Instant

pub data TunnelCall : Type 0 where
  looks_up : P2pId → TunnelId → TunnelCall
  gets : P2pId → (TunnelEntry → Bool) → Bool → TunnelCall
  registers : Tunnel → TunnelCall
  publishes : Tunnel → TunnelCall
  comes_in : Tunnel → TunnelCall
  finalizes : P2pId → Tunnel → TunnelCall
  cleans_up : (Tunnel → Bool) → TunnelCall
  collects_due : TunnelCall
  fails : P2pId → ℕ → TunnelCall

module _ (initial_interval : Duration) where
  unfoldable pub step : TunnelManager → Reading × TunnelCall → TunnelManager
  step m (r, looks_up remote_id tunnel_id) =
      (has_available_tunnel_id r.available r.now m remote_id tunnel_id).0
  step m (r, gets remote_id filter allow) =
      (get_tunnel_with_filter r.available r.now r.activity m remote_id filter allow).0
  step m (r, registers tunnel) = (register_tunnel r.available r.now m tunnel).0
  step m (r, publishes tunnel) = (publish_registered_tunnel r.available r.now m tunnel).0
  step m (r, comes_in tunnel) = (on_incoming_tunnel r.available r.now m tunnel).0
  step m (r, finalizes remote_id tunnel) =
      (finalize_proxy_upgrade_success r.available r.now m remote_id tunnel).0
  step m (r, cleans_up retires) = (cleanup_closed_tunnels r.available r.now retires m).0
  step m (r, collects_due) = record m { state = (collect_due_proxy_upgrades m.state r.now).0 }
  step m (r, fails remote_id generation) = record m {
    state =
        (on_proxy_upgrade_failed_generation m.state initial_interval remote_id generation r.now).0;
  }

  unfoldable pub run : TunnelManager → List (Reading × TunnelCall) → TunnelManager
  run m [] = m
  run m (c ∷ cs) = run (step m c) cs
