-- ===== src/TunnelManager/Owners.antt =====
-- p2p-frame/src/tunnel/tunnel_manager.rs: the rendezvous attempts that own a remote peer, and the
-- waiters for incoming tunnels. An operation returns the new state and what it does to shared objects.
pub mod Calls
pub mod Completions
pub mod Answered
pub mod Crossing
use bucky_p2p.Base.{
  ℕ, Bool, true, false, not, ◌&&◌, Option, none, some, List, [], ◌∷◌, ◌++◌, map, ◌==◌, ◌≟◌, Eq,
  if◌then◌else◌, HashMap, get, insert, remove, P2pErrorCode, P2pResult, ok, err,
}
use bucky_p2p.Identity.{P2pId, id_eq, bytes_lt}
use bucky_p2p.Types.{Sequence, TunnelId}
use bucky_p2p.TunnelManager.{
  Token, Completer, IncomingNotify, Task, ManagerState, IncomingWaitKey, IncomingWaiterEntry,
  RendezvousAttemptOwner, RendezvousWinnerCompletion, failure, wait_key_eq,
}

-- `notifies` is `Notify::notify_one`, `stores` sets the flag `yielded`, `sends` answers a oneshot.
pub data OwnerEffect : Type 0 where
  notifies : Token → OwnerEffect
  stores : Token → OwnerEffect
  aborts : Task → OwnerEffect
  sends : Completer → RendezvousWinnerCompletion → OwnerEffect

instance abbrev bool_eq : Eq Bool
bool_eq = record { dec = hlevel }

abbrev pub wait_key : P2pId → TunnelId → Bool → IncomingWaitKey
wait_key remote_id tunnel_id expected_reverse = record {
  remote_id = remote_id;
  tunnel_id = tunnel_id;
  expected_reverse = expected_reverse;
}

-- `token` is the new `Arc`.
unfoldable pub add_incoming_waiter :
    ManagerState → P2pId → TunnelId → Bool → IncomingNotify → Token → ManagerState
add_incoming_waiter s remote_id tunnel_id expected_reverse waiter token = record s {
  pending_reverse_waiters =
      insert (wait_key remote_id tunnel_id expected_reverse)
        (record { token = token; waiter = waiter }) s.pending_reverse_waiters;
}

abbrev pub waiter_of : Option IncomingWaiterEntry → Option IncomingNotify
waiter_of none = none
waiter_of (some entry) = some entry.waiter

unfoldable pub take_incoming_waiter :
    ManagerState → P2pId → TunnelId → Bool → ManagerState × Option IncomingNotify
take_incoming_waiter s remote_id tunnel_id expected_reverse =
    let key = wait_key remote_id tunnel_id expected_reverse in
    (
      record s { pending_reverse_waiters = remove key s.pending_reverse_waiters },
      waiter_of (get key s.pending_reverse_waiters),
    )

unfoldable pub has_reverse_waiter : ManagerState → P2pId → TunnelId → Bool
has_reverse_waiter s remote_id tunnel_id =
    elim (get (wait_key remote_id tunnel_id true) s.pending_reverse_waiters) [
      | none ↦ false
      | some entry ↦ true
    ]

unfoldable pub publish_rendezvous_waiter :
    ManagerState → P2pId → RendezvousAttemptOwner → Option IncomingNotify → ManagerState
unfolding add_incoming_waiter
publish_rendezvous_waiter s remote_id owner none = s
publish_rendezvous_waiter s remote_id owner (some waiter) = elim owner.expected_incoming_reverse [
  | none ↦ s
  | some expected ↦ add_incoming_waiter s remote_id owner.tunnel_id expected waiter owner.token
]

abbrev holds_token : Option IncomingWaiterEntry → Token → Bool
holds_token none token = false
holds_token (some entry) token = entry.token == token

unfoldable pub remove_incoming_waiter :
    ManagerState → P2pId → TunnelId → Bool → Token → ManagerState × Option IncomingNotify
unfolding take_incoming_waiter
remove_incoming_waiter s remote_id tunnel_id expected_reverse token =
    if holds_token (get (wait_key remote_id tunnel_id expected_reverse) s.pending_reverse_waiters)
      token
    then take_incoming_waiter s remote_id tunnel_id expected_reverse
    else (s, none)

-- The waiter of an owner that leaves, if it is still its own.
unfoldable pub remove_owner_waiter : ManagerState → P2pId → RendezvousAttemptOwner → ManagerState
unfolding remove_incoming_waiter
remove_owner_waiter s remote_id owner = elim owner.expected_incoming_reverse [
  | none ↦ s
  | some expected ↦ (remove_incoming_waiter s remote_id owner.tunnel_id expected owner.token).0
]

abbrev pub send_all : RendezvousWinnerCompletion → List Completer → List OwnerEffect
send_all completion waiters = map (λ w. sends w completion) waiters

abbrev abort_task : Option Task → List OwnerEffect
abort_task none = []
abort_task (some task) = aborts task ∷ []

abbrev pub cancelled : RendezvousWinnerCompletion
cancelled = failure P2pErrorCode.user_canceled

unfoldable pub abort_rendezvous_owner :
    ManagerState → P2pId → RendezvousAttemptOwner → ManagerState × List OwnerEffect
unfolding remove_owner_waiter
abort_rendezvous_owner s remote_id owner = (
  remove_owner_waiter s remote_id owner,
  notifies owner.cancel ∷ (abort_task owner.task ++ send_all cancelled owner.winner_completions),
)

abbrev pub put_owner : ManagerState → P2pId → RendezvousAttemptOwner → ManagerState
put_owner s remote_id owner = record s {
  rendezvous_attempts = insert remote_id owner s.rendezvous_attempts;
}

abbrev is_same_attempt : RendezvousAttemptOwner → RendezvousAttemptOwner → Bool
is_same_attempt existing owner =
    existing.initiator_local ≟ owner.initiator_local
    && existing.seq == owner.seq
    && existing.tunnel_id == owner.tunnel_id

-- `as_slice() < as_slice()`, and whether the new attempt takes the place of the old one.
unfoldable pub new_wins : P2pId → P2pId → RendezvousAttemptOwner → Bool
unfolding bytes_lt
new_wins local_id remote_id owner =
    let local_initiator_wins = bytes_lt local_id.bytes remote_id.bytes in
    if owner.initiator_local then local_initiator_wins else not local_initiator_wins

abbrev pub more_completions : RendezvousAttemptOwner → List Completer → RendezvousAttemptOwner
more_completions owner more = record owner { winner_completions = owner.winner_completions ++ more }

-- The attempt loses: it joins the attempt of the other end, or is refused.
abbrev pub yield_to :
    ManagerState
    → P2pId
    → RendezvousAttemptOwner
    → RendezvousAttemptOwner
    → ManagerState × List OwnerEffect × P2pResult (Unit {0})
yield_to s remote_id owner existing =
    if owner.initiator_local && not existing.initiator_local
    then (
      put_owner s remote_id (more_completions existing owner.winner_completions),
      stores owner.yielded ∷ notifies owner.cancel ∷ [],
      ok tt,
    )
    else (s, [], err P2pErrorCode.conflict)

-- The two ends of a displacement: the flags, the attempt that enters and the one that leaves.
abbrev pub hands_over : RendezvousAttemptOwner → RendezvousAttemptOwner → Bool
hands_over displaced owner = displaced.initiator_local && not owner.initiator_local

abbrev pub entering : RendezvousAttemptOwner → RendezvousAttemptOwner → RendezvousAttemptOwner
entering displaced owner =
    if hands_over displaced owner
    then more_completions owner displaced.winner_completions
    else owner

abbrev pub leaving : RendezvousAttemptOwner → RendezvousAttemptOwner → RendezvousAttemptOwner
leaving displaced owner =
    if hands_over displaced owner then record displaced { winner_completions = [] } else displaced

-- The attempt wins; the last step runs after the lock is released.
unfoldable pub displace :
    ManagerState
    → P2pId
    → RendezvousAttemptOwner
    → RendezvousAttemptOwner
    → Option IncomingNotify
    → ManagerState × List OwnerEffect × P2pResult (Unit {0})
unfolding remove_owner_waiter publish_rendezvous_waiter abort_rendezvous_owner
displace s remote_id displaced owner waiter =
    let next = entering displaced owner in
    let out = leaving displaced owner in
    let s1 = record s { rendezvous_attempts = remove remote_id s.rendezvous_attempts } in
    let s2 = remove_owner_waiter s1 remote_id out in
    let s3 = publish_rendezvous_waiter s2 remote_id next waiter in
    let (s4, effects) = abort_rendezvous_owner (put_owner s3 remote_id next) remote_id out in
    (
      s4,
      (if hands_over displaced owner then stores displaced.yielded ∷ effects else effects),
      ok tt,
    )

abbrev pub install_over :
    P2pId
    → ManagerState
    → P2pId
    → RendezvousAttemptOwner
    → RendezvousAttemptOwner
    → Option IncomingNotify
    → ManagerState × List OwnerEffect × P2pResult (Unit {0})
install_over local_id s remote_id existing owner waiter =
    if is_same_attempt existing owner
    then (s, [], err P2pErrorCode.already_exists)
    else if not (new_wins local_id remote_id owner)
    then yield_to s remote_id owner existing
    else displace s remote_id existing owner waiter

unfoldable pub install_rendezvous_owner :
    P2pId
    → ManagerState
    → P2pId
    → RendezvousAttemptOwner
    → Option IncomingNotify
    → ManagerState × List OwnerEffect × P2pResult (Unit {0})
unfolding new_wins displace publish_rendezvous_waiter
install_rendezvous_owner local_id s remote_id owner waiter =
    elim (get remote_id s.rendezvous_attempts) [
      | some existing ↦ install_over local_id s remote_id existing owner waiter
      | none ↦ (
        put_owner (publish_rendezvous_waiter s remote_id owner waiter) remote_id owner,
        [],
        ok tt,
      )
    ]

-- The attempt still owns the peer.
abbrev pub is_owned_by : RendezvousAttemptOwner → Sequence → TunnelId → Token → Bool
is_owned_by owner seq tunnel_id token =
    owner.seq == seq && owner.tunnel_id == tunnel_id && owner.token == token

abbrev pub owned : Option RendezvousAttemptOwner → Sequence → TunnelId → Token → Bool
owned none seq tunnel_id token = false
owned (some owner) seq tunnel_id token = is_owned_by owner seq tunnel_id token

abbrev attach_to :
    ManagerState
    → P2pId
    → Option RendezvousAttemptOwner
    → Task
    → Token
    → ManagerState × List OwnerEffect × Bool
attach_to s remote_id none task start = (s, aborts task ∷ [], false)
attach_to s remote_id (some owner) task start =
    (put_owner s remote_id (record owner { task = some task }), notifies start ∷ [], true)

unfoldable pub attach_rendezvous_task :
    ManagerState
    → P2pId
    → Sequence
    → TunnelId
    → Token
    → Task
    → Token
    → ManagerState × List OwnerEffect × Bool
attach_rendezvous_task s remote_id seq tunnel_id token task start =
    let found = get remote_id s.rendezvous_attempts in
    if owned found seq tunnel_id token
    then attach_to s remote_id found task start
    else (s, aborts task ∷ [], false)

-- An attempt that leaves the table, with its waiter.
unfoldable pub without_owner : ManagerState → P2pId → RendezvousAttemptOwner → ManagerState
unfolding remove_owner_waiter
without_owner s remote_id owner =
    remove_owner_waiter (record s { rendezvous_attempts = remove remote_id s.rendezvous_attempts })
      remote_id owner

unfoldable pub complete_rendezvous_owner :
    ManagerState
    → P2pId
    → Sequence
    → TunnelId
    → Token
    → RendezvousWinnerCompletion
    → ManagerState × List OwnerEffect
unfolding without_owner
complete_rendezvous_owner s remote_id seq tunnel_id token completion =
    elim (get remote_id s.rendezvous_attempts) [
      | none ↦ (s, [])
      | some owner ↦
          if is_owned_by owner seq tunnel_id token
          then (without_owner s remote_id owner, send_all completion owner.winner_completions)
          else (s, [])
    ]

unfoldable pub cancel_rendezvous_owner :
    ManagerState → P2pId → Sequence → TunnelId → Token → ManagerState × List OwnerEffect
unfolding without_owner abort_rendezvous_owner
cancel_rendezvous_owner s remote_id seq tunnel_id token =
    elim (get remote_id s.rendezvous_attempts) [
      | none ↦ (s, [])
      | some owner ↦
          if is_owned_by owner seq tunnel_id token
          then abort_rendezvous_owner (without_owner s remote_id owner) remote_id owner
          else (s, [])
    ]

-- `Drop`: the attempts are drained and aborted one by one.
unfoldable pub abort_each :
    ManagerState → List (P2pId × RendezvousAttemptOwner) → ManagerState × List OwnerEffect
unfolding abort_rendezvous_owner
abort_each s [] = (s, [])
abort_each s ((remote_id, owner) ∷ rest) =
    let (s2, effects) = abort_rendezvous_owner s remote_id owner in
    let (s3, more) = abort_each s2 rest in (s3, effects ++ more)

unfoldable pub drop_owners : ManagerState → ManagerState × List OwnerEffect
unfolding abort_each
drop_owners s = abort_each (record s { rendezvous_attempts = [] }) s.rendezvous_attempts
