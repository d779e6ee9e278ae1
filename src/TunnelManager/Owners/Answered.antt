-- ===== src/TunnelManager/Owners/Answered.antt =====
-- Every caller that waits for a rendezvous attempt (TunnelManager/Owners) is answered exactly once.
use bucky_p2p.Base.{◌≡◌, refl, List, [], ◌∷◌, ◌++◌, arith, ◌==◌, countp-append, HashMap}
use bucky_p2p.Base.MapTotals.{NodupKeys, total}
use bucky_p2p.Identity.{P2pId, id_eq}
use bucky_p2p.TunnelManager.{Completer, ManagerState, RendezvousAttemptOwner}
use bucky_p2p.TunnelManager.Owners
use bucky_p2p.TunnelManager.Owners.Calls.{
  OwnerCall, installs, attaches, completes, cancels, waits, takes, gives_up, step, run,
}
use bucky_p2p.TunnelManager.Owners.Completions.{
  times, weight, held, is_answer, answers, Conserves, install-Conserves, attach-Conserves,
  complete-Conserves, cancel-Conserves, abort-answers, remove_incoming_waiter-attempts,
}

abbrev pub new_manager : ManagerState
new_manager = record {
  endpoint_scores = [];
  pending_reverse_waiters = [];
  proxy_upgrade_states = [];
  next_proxy_upgrade_generation = 0;
  rendezvous_attempts = [];
}

module _ (c : Completer) where
  step-Conserves :
      (local_id : P2pId) (s : ManagerState) (call : OwnerCall)
      → NodupKeys s.rendezvous_attempts
      → let (s2, ws, sent) = step local_id s call in Conserves c s ws s2 sent
  unfolding step Owners.add_incoming_waiter Owners.take_incoming_waiter
  step-Conserves local_id s (installs id owner waiter) n =
      install-Conserves c local_id s id owner waiter n
  step-Conserves local_id s (attaches id seq tunnel_id token task start) n =
      attach-Conserves c s id seq tunnel_id token task start n
  step-Conserves local_id s (completes id seq tunnel_id token x) n =
      complete-Conserves c s id seq tunnel_id token x n
  step-Conserves local_id s (cancels id seq tunnel_id token) n =
      cancel-Conserves c s id seq tunnel_id token n
  step-Conserves local_id s (waits id tunnel_id expected waiter token) n = (n, refl)
  step-Conserves local_id s (takes id tunnel_id expected) n = (n, refl)
  step-Conserves local_id s (gives_up id tunnel_id expected token) n =
      rw (remove_incoming_waiter-attempts s id tunnel_id expected token) (n, refl)

  run-Conserves :
      (local_id : P2pId) (s : ManagerState) (calls : List OwnerCall)
      → NodupKeys s.rendezvous_attempts
      → let (s2, ws, sent) = run local_id s calls in Conserves c s ws s2 sent
  unfolding run
  run-Conserves local_id s [] n = (n, refl)
  run-Conserves local_id s (call ∷ calls) n =
      let (s2, ws, sent) = step local_id s call in
      let first = step-Conserves local_id s call n in
      let rest = run-Conserves local_id s2 calls first.0 in
      let (s3, more_ws, more_sent) = run local_id s2 calls in
      (
        rest.0,
        omega (
          arith,
          countp-append (λ v. v == c) ws more_ws,
          countp-append (is_answer c) sent more_sent,
        ),
      )

  abort_each-answers :
      (s : ManagerState) (owners : HashMap P2pId RendezvousAttemptOwner)
      → answers c (Owners.abort_each s owners).1 ≡ total (weight c) owners
  unfolding Owners.abort_each
  abort_each-answers s [] = refl
  abort_each-answers s ((id, owner) ∷ owners) =
      let (s2, sent) = Owners.abort_rendezvous_owner s id owner in
      let more = (Owners.abort_each s2 owners).1 in
      omega (
        arith,
        countp-append (is_answer c) sent more,
        abort-answers c s id owner,
        abort_each-answers s2 owners,
      )

  drop_owners-answers : (s : ManagerState) → answers c (Owners.drop_owners s).1 ≡ held c s
  unfolding Owners.drop_owners
  drop_owners-answers s = abort_each-answers _ s.rendezvous_attempts

  -- Whatever is called, and however attempts displace and join one another: until the manager is
  -- dropped, each caller that was accepted has been answered, as often as it was accepted.
  pub run-drop_owners-answers :
      (local_id : P2pId) (calls : List OwnerCall)
      → let (s, ws, sent) = run local_id new_manager calls in
        answers c (sent ++ (Owners.drop_owners s).1) ≡ times c ws
  run-drop_owners-answers local_id calls =
      let (s, ws, sent) = run local_id new_manager calls in
      omega (
        arith,
        (run-Conserves local_id new_manager calls tt).1,
        countp-append (is_answer c) sent (Owners.drop_owners s).1,
        drop_owners-answers s,
      )
