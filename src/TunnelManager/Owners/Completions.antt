-- ===== src/TunnelManager/Owners/Completions.antt =====
-- Each operation on the rendezvous attempts (TunnelManager/Owners) keeps or answers the callers that
-- wait for them.
use bucky_p2p.Base.{
  ℕ, ◌+◌, ◌≡◌, inl, inr, refl, Bool, false, not, Option, none, some, List, [], ◌∷◌, arith, ◌∙◌,
  ◌==◌, ◌&&◌, if_both, countp, countp-append, get, insert, remove, ok, P2pResult, Option-cases, ap,
}
use bucky_p2p.Base.MapTotals.{
  NodupKeys, NodupKeys-insert, NodupKeys-remove, total, total-remove_found, total-insert_found,
  total-insert-none, get-remove_self,
}
use bucky_p2p.Identity.{P2pId, id_eq}
use bucky_p2p.Types.{Sequence, TunnelId}
use bucky_p2p.TunnelManager.{
  Token, Completer, IncomingNotify, Task, ManagerState, RendezvousAttemptOwner,
  RendezvousWinnerCompletion,
}
use bucky_p2p.TunnelManager.Owners
use bucky_p2p.TunnelManager.Owners.Calls.{accepted}

abbrev pub times : Completer → List Completer → ℕ
times c ws = countp (λ v. v == c) ws

abbrev pub weight : Completer → P2pId × RendezvousAttemptOwner → ℕ
weight c (id, owner) = times c owner.winner_completions

-- How often a caller waits in the table, and how often it is answered.
abbrev pub held : Completer → ManagerState → ℕ
held c s = total (weight c) s.rendezvous_attempts

abbrev pub is_answer : Completer → Owners.OwnerEffect → Bool
is_answer c (Owners.sends w x) = w == c
is_answer c (Owners.notifies t) = false
is_answer c (Owners.stores t) = false
is_answer c (Owners.aborts t) = false

abbrev pub answers : Completer → List Owners.OwnerEffect → ℕ
answers c effects = countp (is_answer c) effects

answers-send_all :
    (c : Completer) (x : RendezvousWinnerCompletion) (ws : List Completer)
    → answers c (Owners.send_all x ws) ≡ times c ws
answers-send_all c x [] = refl
answers-send_all c x (w ∷ ws) = ground (arith, answers-send_all c x ws)

-- The waiters for incoming tunnels are another map.
pub remove_incoming_waiter-attempts :
    (s : ManagerState) (id : P2pId) (tunnel_id : TunnelId) (expected : Bool) (token : Token)
    → (Owners.remove_incoming_waiter s id tunnel_id expected token).0.rendezvous_attempts
      ≡ s.rendezvous_attempts
unfolding Owners.remove_incoming_waiter
remove_incoming_waiter-attempts s id tunnel_id expected token = ground arith

remove_owner_waiter-attempts :
    (s : ManagerState) (id : P2pId) (owner : RendezvousAttemptOwner)
    → (Owners.remove_owner_waiter s id owner).rendezvous_attempts ≡ s.rendezvous_attempts
unfolding Owners.remove_owner_waiter
remove_owner_waiter-attempts s id owner = elim (Option-cases owner.expected_incoming_reverse) [
  | inl e ↦ rw (e, Owners.remove_owner_waiter) refl
  | inr (b, e) ↦
      rw (e, Owners.remove_owner_waiter)
        (remove_incoming_waiter-attempts s id owner.tunnel_id b owner.token)
]

pub publish_rendezvous_waiter-attempts :
    (s : ManagerState) (id : P2pId) (owner : RendezvousAttemptOwner)
    (waiter : Option IncomingNotify)
    → (Owners.publish_rendezvous_waiter s id owner waiter).rendezvous_attempts
      ≡ s.rendezvous_attempts
unfolding Owners.publish_rendezvous_waiter
publish_rendezvous_waiter-attempts s id owner none = refl
publish_rendezvous_waiter-attempts s id owner (some w) = ground arith

-- The callers that waited or came are those that wait or were answered; no peer has two attempts.
abbrev pub Conserves :
    Completer → ManagerState → List Completer → ManagerState → List Owners.OwnerEffect → Type 0
Conserves c s ws s2 effects =
    NodupKeys s2.rendezvous_attempts × (held c s + times c ws ≡ held c s2 + answers c effects)

pub abort-attempts :
    (s : ManagerState) (id : P2pId) (owner : RendezvousAttemptOwner)
    → (Owners.abort_rendezvous_owner s id owner).0.rendezvous_attempts ≡ s.rendezvous_attempts
unfolding Owners.abort_rendezvous_owner
abort-attempts s id owner = remove_owner_waiter-attempts s id owner

pub displace-attempts :
    (s : ManagerState) (id : P2pId) (displaced owner : RendezvousAttemptOwner)
    (waiter : Option IncomingNotify)
    → (Owners.displace s id displaced owner waiter).0.rendezvous_attempts
      ≡ insert id (Owners.entering displaced owner) (remove id s.rendezvous_attempts)
unfolding Owners.displace
displace-attempts s id displaced owner waiter =
    let next = Owners.entering displaced owner in
    let out = Owners.leaving displaced owner in
    let s1 : ManagerState = record s { rendezvous_attempts = remove id s.rendezvous_attempts } in
    let s2 = Owners.remove_owner_waiter s1 id out in
    let s3 = Owners.publish_rendezvous_waiter s2 id next waiter in
    abort-attempts (Owners.put_owner s3 id next) id out
    ∙ ap (insert id next) (
        publish_rendezvous_waiter-attempts s2 id next waiter
        ∙ remove_owner_waiter-attempts s1 id out)

module _ (c : Completer) where
  pub abort-answers :
      (s : ManagerState) (id : P2pId) (owner : RendezvousAttemptOwner)
      → answers c (Owners.abort_rendezvous_owner s id owner).1 ≡ times c owner.winner_completions
  unfolding Owners.abort_rendezvous_owner
  abort-answers s id owner =
      ground (arith, answers-send_all c Owners.cancelled owner.winner_completions)

  entering-leaving :
      (displaced owner : RendezvousAttemptOwner)
      → times c (Owners.entering displaced owner).winner_completions
          + times c (Owners.leaving displaced owner).winner_completions
        ≡ times c owner.winner_completions + times c displaced.winner_completions
  entering-leaving displaced owner =
      ground
        (arith, countp-append (λ v. v == c) owner.winner_completions displaced.winner_completions)

  -- A table from which the attempt of a peer has gone, and one in which another stands in its place.
  pub removed_lem :
      (s s2 : ManagerState) (id : P2pId) (owner : RendezvousAttemptOwner)
      → NodupKeys s.rendezvous_attempts
      → get id s.rendezvous_attempts ≡ some owner
      → s2.rendezvous_attempts ≡ remove id s.rendezvous_attempts
      → NodupKeys s2.rendezvous_attempts × (held c s ≡ times c owner.winner_completions + held c s2)
  removed_lem s s2 id owner n g e = rw e (
    NodupKeys-remove id s.rendezvous_attempts n,
    total-remove_found (weight c) id owner s.rendezvous_attempts n g,
  )

  -- The effects of a displacement answer those who stay with the attempt that leaves.
  displace-answers :
      (s : ManagerState) (id : P2pId) (displaced owner : RendezvousAttemptOwner)
      (waiter : Option IncomingNotify)
      → answers c (Owners.displace s id displaced owner waiter).1
        ≡ times c (Owners.leaving displaced owner).winner_completions
  unfolding Owners.displace
  displace-answers s id displaced owner waiter =
      let next = Owners.entering displaced owner in
      let out = Owners.leaving displaced owner in
      let s1 : ManagerState = record s { rendezvous_attempts = remove id s.rendezvous_attempts } in
      let s2 = Owners.remove_owner_waiter s1 id out in
      let s3 = Owners.publish_rendezvous_waiter s2 id next waiter in
      ground (arith, abort-answers (Owners.put_owner s3 id next) id out)

  displace-Conserves :
      (s : ManagerState) (id : P2pId) (displaced owner : RendezvousAttemptOwner)
      (waiter : Option IncomingNotify)
      → NodupKeys s.rendezvous_attempts
      → get id s.rendezvous_attempts ≡ some displaced
      → Conserves c s owner.winner_completions
          (Owners.displace s id displaced owner waiter).0
          (Owners.displace s id displaced owner waiter).1
  displace-Conserves s id displaced owner waiter n g =
      let m = remove id s.rendezvous_attempts in
      let next = Owners.entering displaced owner in
      rw (displace-attempts s id displaced owner waiter) (
        NodupKeys-insert id next m (NodupKeys-remove id s.rendezvous_attempts n),
        omega (
          arith,
          displace-answers s id displaced owner waiter,
          total-insert-none (weight c) id next m (get-remove_self id s.rendezvous_attempts),
          total-remove_found (weight c) id displaced s.rendezvous_attempts n g,
          entering-leaving displaced owner,
        ),
      )

  -- An attempt that stays, with the callers of another one added.
  put_owner-Conserves :
      (s : ManagerState) (id : P2pId) (old new : RendezvousAttemptOwner) (ws : List Completer)
      → NodupKeys s.rendezvous_attempts
      → get id s.rendezvous_attempts ≡ some old
      → times c old.winner_completions + times c ws ≡ times c new.winner_completions
      → NodupKeys (Owners.put_owner s id new).rendezvous_attempts
        × (held c s + times c ws ≡ held c (Owners.put_owner s id new))
  put_owner-Conserves s id old new ws n g e = (
    NodupKeys-insert id new s.rendezvous_attempts n,
    omega (arith, total-insert_found (weight c) id old new s.rendezvous_attempts n g),
  )

  displace-ok :
      (s : ManagerState) (id : P2pId) (displaced owner : RendezvousAttemptOwner)
      (waiter : Option IncomingNotify)
      → (Owners.displace s id displaced owner waiter).2 ≡ ok tt
  unfolding Owners.displace
  displace-ok s id displaced owner waiter = refl

  yield_to-Conserves :
      (s : ManagerState) (id : P2pId) (owner existing : RendezvousAttemptOwner)
      → NodupKeys s.rendezvous_attempts
      → get id s.rendezvous_attempts ≡ some existing
      → let (s2, effects, result) = Owners.yield_to s id owner existing in
        Conserves c s (accepted owner result) s2 effects
  yield_to-Conserves s id owner existing n g =
      let new = Owners.more_completions existing owner.winner_completions in
      if_both
        (λ (r : ManagerState × List Owners.OwnerEffect × P2pResult (Unit {0})).
          Conserves c s (accepted owner r.2) r.0 r.1)
        (owner.initiator_local && not existing.initiator_local) _ _
        (λ q.
          let kept = put_owner-Conserves s id existing new owner.winner_completions n g (
            omega (
              arith,
              countp-append (λ v. v == c) existing.winner_completions owner.winner_completions,
            )) in
          (kept.0, omega arith))
        (λ q. (n, refl))

  install_over-Conserves :
      (local_id : P2pId) (s : ManagerState) (id : P2pId) (existing owner : RendezvousAttemptOwner)
      (waiter : Option IncomingNotify)
      → NodupKeys s.rendezvous_attempts
      → get id s.rendezvous_attempts ≡ some existing
      → let (s2, effects, result) = Owners.install_over local_id s id existing owner waiter in
        Conserves c s (accepted owner result) s2 effects
  install_over-Conserves local_id s id existing owner waiter n g =
      let P = λ (r : ManagerState × List Owners.OwnerEffect × P2pResult (Unit {0})).
        Conserves c s (accepted owner r.2) r.0 r.1 in
      if_both P (Owners.is_same_attempt existing owner) _ _ (λ q. (n, refl))
        (λ q.
          if_both P (not (Owners.new_wins local_id id owner)) _ _
            (λ q2. yield_to-Conserves s id owner existing n g)
            (λ q2.
              rw (displace-ok s id existing owner waiter)
                (displace-Conserves s id existing owner waiter n g)))

  pub install-Conserves :
      (local_id : P2pId) (s : ManagerState) (id : P2pId) (owner : RendezvousAttemptOwner)
      (waiter : Option IncomingNotify)
      → NodupKeys s.rendezvous_attempts
      → let (s2, effects, result) = Owners.install_rendezvous_owner local_id s id owner waiter in
        Conserves c s (accepted owner result) s2 effects
  unfolding Owners.install_rendezvous_owner
  install-Conserves local_id s id owner waiter n =
      elim (Option-cases (get id s.rendezvous_attempts)) [
        | inr (existing, e) ↦
            rw (e, Owners.install_rendezvous_owner)
              (install_over-Conserves local_id s id existing owner waiter n e)
        | inl e ↦
            rw
              (
                e,
                Owners.install_rendezvous_owner,
                publish_rendezvous_waiter-attempts s id owner waiter,
              )
              (
                NodupKeys-insert id owner s.rendezvous_attempts n,
                omega (arith, total-insert-none (weight c) id owner s.rendezvous_attempts e),
              )
      ]

  pub attach-Conserves :
      (s : ManagerState) (id : P2pId) (seq : Sequence) (tunnel_id : TunnelId) (token : Token)
      (task : Task) (start : Token)
      → NodupKeys s.rendezvous_attempts
      → let (s2, effects, attached) =
          Owners.attach_rendezvous_task s id seq tunnel_id token task start in
        Conserves c s [] s2 effects
  unfolding Owners.attach_rendezvous_task
  attach-Conserves s id seq tunnel_id token task start n =
      elim (Option-cases (get id s.rendezvous_attempts)) [
        | inl e ↦ rw (e, Owners.attach_rendezvous_task) (n, refl)
        | inr (owner, e) ↦
            rw (e, Owners.attach_rendezvous_task)
              (if_both
                (λ (r : ManagerState × List Owners.OwnerEffect × Bool). Conserves c s [] r.0 r.1)
                (Owners.is_owned_by owner seq tunnel_id token) _ _
                (λ q.
                  let kept =
                    put_owner-Conserves s id owner (record owner { task = some task }) [] n e
                      (omega arith) in
                  (kept.0, omega arith))
                (λ q. (n, refl)))
      ]

  without_owner-attempts :
      (s : ManagerState) (id : P2pId) (owner : RendezvousAttemptOwner)
      → (Owners.without_owner s id owner).rendezvous_attempts ≡ remove id s.rendezvous_attempts
  unfolding Owners.without_owner
  without_owner-attempts s id owner = remove_owner_waiter-attempts _ id owner

  pub complete-Conserves :
      (s : ManagerState) (id : P2pId) (seq : Sequence) (tunnel_id : TunnelId) (token : Token)
      (x : RendezvousWinnerCompletion)
      → NodupKeys s.rendezvous_attempts
      → let (s2, effects) = Owners.complete_rendezvous_owner s id seq tunnel_id token x in
        Conserves c s [] s2 effects
  unfolding Owners.complete_rendezvous_owner
  complete-Conserves s id seq tunnel_id token x n =
      elim (Option-cases (get id s.rendezvous_attempts)) [
        | inl e ↦ rw (e, Owners.complete_rendezvous_owner) (n, refl)
        | inr (owner, e) ↦
            rw (e, Owners.complete_rendezvous_owner)
              (if_both (λ (r : ManagerState × List Owners.OwnerEffect). Conserves c s [] r.0 r.1)
                (Owners.is_owned_by owner seq tunnel_id token) _ _
                (λ q.
                  let gone =
                    removed_lem s (Owners.without_owner s id owner) id owner n e
                      (without_owner-attempts s id owner) in
                  (gone.0, omega (arith, answers-send_all c x owner.winner_completions)))
                (λ q. (n, refl)))
      ]

  pub cancel-Conserves :
      (s : ManagerState) (id : P2pId) (seq : Sequence) (tunnel_id : TunnelId) (token : Token)
      → NodupKeys s.rendezvous_attempts
      → let (s2, effects) = Owners.cancel_rendezvous_owner s id seq tunnel_id token in
        Conserves c s [] s2 effects
  unfolding Owners.cancel_rendezvous_owner
  cancel-Conserves s id seq tunnel_id token n = elim (Option-cases (get id s.rendezvous_attempts)) [
    | inl e ↦ rw (e, Owners.cancel_rendezvous_owner) (n, refl)
    | inr (owner, e) ↦
        rw (e, Owners.cancel_rendezvous_owner)
          (if_both (λ (r : ManagerState × List Owners.OwnerEffect). Conserves c s [] r.0 r.1)
            (Owners.is_owned_by owner seq tunnel_id token) _ _
            (λ q.
              let s2 = Owners.without_owner s id owner in
              let gone =
                removed_lem s (Owners.abort_rendezvous_owner s2 id owner).0 id owner n e
                  (abort-attempts s2 id owner ∙ without_owner-attempts s id owner) in
              (gone.0, omega (arith, abort-answers s2 id owner)))
            (λ q. (n, refl)))
  ]
