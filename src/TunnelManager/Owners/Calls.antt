-- ===== src/TunnelManager/Owners/Calls.antt =====
-- Sequences of calls about rendezvous attempts and waiters (TunnelManager/Owners), each of them under
-- the lock of the manager.
use bucky_p2p.Base.{Bool, Option, List, [], ◌∷◌, ◌++◌, P2pResult, ok, err}
use bucky_p2p.Identity.{P2pId}
use bucky_p2p.Types.{Sequence, TunnelId}
use bucky_p2p.TunnelManager.{
  Token, Completer, IncomingNotify, Task, ManagerState, RendezvousAttemptOwner,
  RendezvousWinnerCompletion,
}
use bucky_p2p.TunnelManager.Owners

-- A call of the manager about its attempts and waiters.
pub data OwnerCall : Type 0 where
  installs : P2pId → RendezvousAttemptOwner → Option IncomingNotify → OwnerCall
  attaches : P2pId → Sequence → TunnelId → Token → Task → Token → OwnerCall
  completes : P2pId → Sequence → TunnelId → Token → RendezvousWinnerCompletion → OwnerCall
  cancels : P2pId → Sequence → TunnelId → Token → OwnerCall
  waits : P2pId → TunnelId → Bool → IncomingNotify → Token → OwnerCall
  takes : P2pId → TunnelId → Bool → OwnerCall
  gives_up : P2pId → TunnelId → Bool → Token → OwnerCall

-- The callers of an attempt wait once it is accepted; those of a refused one see it dropped.
abbrev pub accepted : RendezvousAttemptOwner → P2pResult (Unit {0}) → List Completer
accepted owner (ok u) = owner.winner_completions
accepted owner (err e) = []

unfoldable pub step :
    P2pId → ManagerState → OwnerCall → ManagerState × List Completer × List Owners.OwnerEffect
step local_id s (installs remote_id owner waiter) =
    let (s2, effects, result) = Owners.install_rendezvous_owner local_id s remote_id owner waiter in
    (s2, accepted owner result, effects)
step local_id s (attaches remote_id seq tunnel_id token task start) =
    let (s2, effects, attached) =
      Owners.attach_rendezvous_task s remote_id seq tunnel_id token task start in
    (s2, [], effects)
step local_id s (completes remote_id seq tunnel_id token completion) =
    let (s2, effects) =
      Owners.complete_rendezvous_owner s remote_id seq tunnel_id token completion in
    (s2, [], effects)
step local_id s (cancels remote_id seq tunnel_id token) =
    let (s2, effects) = Owners.cancel_rendezvous_owner s remote_id seq tunnel_id token in
    (s2, [], effects)
step local_id s (waits remote_id tunnel_id expected waiter token) =
    (Owners.add_incoming_waiter s remote_id tunnel_id expected waiter token, [], [])
step local_id s (takes remote_id tunnel_id expected) =
    ((Owners.take_incoming_waiter s remote_id tunnel_id expected).0, [], [])
step local_id s (gives_up remote_id tunnel_id expected token) =
    ((Owners.remove_incoming_waiter s remote_id tunnel_id expected token).0, [], [])

unfoldable pub run :
    P2pId → ManagerState → List OwnerCall → ManagerState × List Completer × List Owners.OwnerEffect
run local_id s [] = (s, [], [])
run local_id s (c ∷ cs) =
    let (s2, ws, sent) = step local_id s c in
    let (s3, more_ws, more_sent) = run local_id s2 cs in (s3, ws ++ more_ws, sent ++ more_sent)
