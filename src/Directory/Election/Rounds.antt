-- ===== src/Directory/Election/Rounds.antt =====
-- p2p-frame/src/sn/directory/election.rs: the rounds in which a node asks the other members: an
-- election, a heartbeat, the replication of a session change. The peers answer through a client, a
-- parameter. While a node waits for an answer, other tasks of it may run: an election and a heartbeat
-- are in pieces, which leave room for that, and `start_election` and `send_heartbeat` take the case in
-- which none runs; a commit takes as a parameter what the others make of the node in the meantime,
-- up to the last answer; what they do while the members are told of the commit is left out.
use bucky_p2p.Base.{
  ℕ, ◌+◌, max, Bool, true, false, not, ◌&&◌, Option, none, some, List, [], ◌∷◌, ltb, leb,
  if◌then◌else◌, ok, err, P2pResult, P2pErrorCode, Timestamp, Duration, saturating_add,
  saturating_sub, ◌>>◌,
}
use bucky_p2p.Identity.{P2pId}
use bucky_p2p.Directory.Membership.{is_member, to_bucky_time}
use bucky_p2p.Directory.ControlPlane.{
  OwnerSessionEntry, apply_committed_session_entry, quorum_size, renew_serving_session,
  revoke_serving_session, online_session,
}
use bucky_p2p.Directory.Election.Node.{
  OwnerElectionNode, candidate, OwnerVoteRequest, OwnerVoteResponse, OwnerHeartbeatRequest,
  OwnerHeartbeatResponse, OwnerSessionReplication, OwnerSessionReplicationResponse,
  OwnerSessionForward, OwnerSessionForwardResponse, remote_members, become_leader, step_down,
  require_leader, is_leader_role,
}

-- What the transport to the other owners gives.
pub record OwnerPeerControlClient : Type 0 where
  pub request_vote : P2pId → OwnerVoteRequest → P2pResult OwnerVoteResponse
  pub send_heartbeat : P2pId → OwnerHeartbeatRequest → P2pResult OwnerHeartbeatResponse
  pub replicate_session :
      P2pId → OwnerSessionReplication → P2pResult OwnerSessionReplicationResponse
  pub forward_session : P2pId → OwnerSessionForward → P2pResult OwnerSessionForwardResponse

-- The part of an answer that a round reads.
pub record PeerAnswer : Type 0 where
  pub term : ℕ
  pub positive : Bool
  pub leader_id : Option P2pId

-- How the loop over the members ends: with the number of positive answers and the highest term, or
-- early, with an answer of a newer term.
pub data Poll : Type 0 where
  counted : ℕ → ℕ → Poll
  newer : PeerAnswer → Poll

-- `count` starts at 1, the node's own voice. A member that does not answer counts for nothing.
unfoldable pub poll : (P2pId → P2pResult PeerAnswer) → ℕ → List P2pId → ℕ → ℕ → Poll
poll ask term [] count highest = counted count highest
poll ask term (member ∷ members) count highest = elim (ask member) [
  | err e ↦ poll ask term members count highest
  | ok answer ↦
      if ltb term answer.term
      then newer answer
      else poll ask term members (if answer.positive then count + 1 else count)
          (max highest answer.term)
]

-- The first part of an election: the node asks for votes in a new term, with its own vote.
unfoldable pub begin_election : OwnerElectionNode → Timestamp → OwnerElectionNode
begin_election n now = record n {
  role = candidate;
  current_term = max (saturating_add n.current_term 1) 1;
  voted_for = some n.local_owner_id;
  leader_id = none;
  last_heartbeat_at = now;
}

abbrev pub vote_answer : P2pResult OwnerVoteResponse → P2pResult PeerAnswer
vote_answer (err e) = err e
vote_answer (ok r) =
    ok (record { term = r.term; positive = r.vote_granted; leader_id = r.leader_id })

abbrev pub heartbeat_answer : P2pResult OwnerHeartbeatResponse → P2pResult PeerAnswer
heartbeat_answer (err e) = err e
heartbeat_answer (ok r) =
    ok (record { term = r.term; positive = r.accepted; leader_id = r.leader_id })

abbrev pub replication_answer : P2pResult OwnerSessionReplicationResponse → P2pResult PeerAnswer
replication_answer (err e) = err e
replication_answer (ok r) =
    ok (record { term = r.term; positive = r.accepted; leader_id = r.leader_id })

-- An answer of a newer term ends a round: the node steps down and reports that.
abbrev pub yield_to {ℓ} :
    {A : Type ℓ} → OwnerElectionNode → PeerAnswer → Timestamp → OwnerElectionNode × P2pResult A
yield_to n answer now =
    let (n', result) = step_down n answer.term answer.leader_id now in
    (n', result >> err P2pErrorCode.permission_denied)

abbrev pub poll_votes : OwnerPeerControlClient → OwnerElectionNode → ℕ → Poll
poll_votes client n term =
    poll
      (λ member.
        vote_answer
          (client.request_vote member (record { term = term; candidate_id = n.local_owner_id })))
      term (remote_members n) 1 term

abbrev pub poll_heartbeats : OwnerPeerControlClient → OwnerElectionNode → ℕ → P2pId → Poll
poll_heartbeats client n term id =
    poll
      (λ member. heartbeat_answer (
        client.send_heartbeat member (record {
          term = term;
          leader_id = id;
          committed_index = n.control_plane.committed_index;
        })))
      term (remote_members n) 1 term

abbrev pub heard : OwnerElectionNode → Poll → Timestamp → OwnerElectionNode × P2pResult ℕ
heard n (counted count highest) now = (n, ok count)
heard n (newer answer) now = yield_to n answer now

unfoldable pub send_heartbeat :
    OwnerPeerControlClient → OwnerElectionNode → Timestamp → OwnerElectionNode × P2pResult ℕ
send_heartbeat client n now = elim (require_leader n) [
  | err e ↦ (n, err e)
  | ok (term, id) ↦ heard n (poll_heartbeats client n term id) now
]

abbrev pub without_quorum : OwnerElectionNode → ℕ → Timestamp → OwnerElectionNode × P2pResult P2pId
without_quorum n highest now =
    let (n', result) = step_down n highest none now in (n', result >> err P2pErrorCode.not_found)

abbrev pub with_quorum :
    OwnerPeerControlClient → OwnerElectionNode → ℕ → Timestamp → OwnerElectionNode × P2pResult P2pId
with_quorum client n term now =
    let (n', result) = become_leader n term now in
    elim result [
      | err e ↦ (n', err e)
      | ok done ↦ ((send_heartbeat client n' now).0, ok n.local_owner_id)
    ]

-- The last part of an election, when the members have answered.
unfoldable pub finish_election :
    OwnerPeerControlClient
    → OwnerElectionNode
    → ℕ
    → Poll
    → Timestamp
    → OwnerElectionNode × P2pResult P2pId
finish_election client n term (newer answer) now = yield_to n answer now
finish_election client n term (counted votes highest) now =
    if leb (quorum_size n.membership) votes
    then with_quorum client n term now
    else without_quorum n highest now

unfoldable pub start_election :
    OwnerPeerControlClient → OwnerElectionNode → Timestamp → OwnerElectionNode × P2pResult P2pId
start_election client n now =
    let n' = begin_election n now in
    finish_election client n' n'.current_term (poll_votes client n' n'.current_term) now

abbrev some_result {ℓ} : {A : Type ℓ} → P2pResult A → P2pResult (Option A)
some_result (err e) = err e
some_result (ok a) = ok (some a)

unfoldable pub tick :
    OwnerPeerControlClient
    → OwnerElectionNode
    → Timestamp
    → OwnerElectionNode × P2pResult (Option P2pId)
tick client n now =
    if not (is_leader_role n.role)
      && ltb (to_bucky_time n.heartbeat_timeout) (saturating_sub now n.last_heartbeat_at)
    then (let (n', result) = start_election client n now in (n', some_result result))
    else (n, ok n.leader_id)

abbrev pub poll_replication :
    OwnerPeerControlClient → OwnerElectionNode → ℕ → P2pId → OwnerSessionEntry → Timestamp → Poll
poll_replication client n term id entry now =
    poll
      (λ member. replication_answer (
        client.replicate_session member
          (record { term = term; leader_id = id; entry = entry; now = now; committed = false })))
      term (remote_members n) 1 term

-- The commit after the round. The members are then told, and their answers have no effect here.
abbrev pub commit_counted :
    OwnerElectionNode
    → ℕ
    → P2pId
    → OwnerSessionEntry
    → Timestamp
    → Poll
    → OwnerElectionNode × P2pResult ℕ
commit_counted n term id entry now (newer answer) = yield_to n answer now
commit_counted n term id entry now (counted accepted highest) =
    if ltb accepted (quorum_size n.membership)
    then (n, err P2pErrorCode.not_found)
    else let (p, result) = apply_committed_session_entry n.control_plane id term entry now in
      (record n { control_plane = p }, result)

-- What the other tasks of a node make of it while a round waits for its answers.
abbrev pub Meanwhile : Type 0
Meanwhile = OwnerElectionNode → OwnerElectionNode

-- The loop reads only what it took from the node at its beginning; it ends on the node as it is then,
-- and neither the role nor the term is read again.
unfoldable pub replicate_and_commit :
    OwnerPeerControlClient
    → Meanwhile
    → OwnerElectionNode
    → OwnerSessionEntry
    → Timestamp
    → OwnerElectionNode × P2pResult ℕ
replicate_and_commit client meanwhile n entry now = elim (require_leader n) [
  | err e ↦ (n, err e)
  | ok (term, id) ↦
      commit_counted (meanwhile n) term id entry now (poll_replication client n term id entry now)
]

abbrev forwarded : P2pResult OwnerSessionForwardResponse → P2pResult ℕ
forwarded (err e) = err e
forwarded (ok r) = if r.accepted then ok r.committed_index else err P2pErrorCode.permission_denied

abbrev forward_to :
    OwnerPeerControlClient → Option P2pId → OwnerSessionEntry → Timestamp → P2pResult ℕ
forward_to client none entry now = err P2pErrorCode.not_found
forward_to client (some id) entry now =
    forwarded (client.forward_session id (record { entry = entry; now = now }))

-- Without a known leader nothing is sent, and the node does not wait.
abbrev forwarding : Option P2pId → Meanwhile → OwnerElectionNode → OwnerElectionNode
forwarding none meanwhile n = n
forwarding (some id) meanwhile n = meanwhile n

unfoldable pub commit_or_forward_session :
    OwnerPeerControlClient
    → Meanwhile
    → OwnerElectionNode
    → OwnerSessionEntry
    → Timestamp
    → OwnerElectionNode × P2pResult ℕ
commit_or_forward_session client meanwhile n entry now =
    if is_leader_role n.role
    then replicate_and_commit client meanwhile n entry now
    else (forwarding n.leader_id meanwhile n, forward_to client n.leader_id entry now)

abbrev pub forward_response : OwnerElectionNode → Bool → ℕ → OwnerSessionForwardResponse
forward_response n accepted index = record {
  term = n.current_term;
  accepted = accepted;
  committed_index = index;
  leader_id = n.leader_id;
}

unfoldable pub receive_session_forward :
    OwnerPeerControlClient
    → Meanwhile
    → OwnerElectionNode
    → P2pId
    → OwnerSessionForward
    → OwnerElectionNode × OwnerSessionForwardResponse
receive_session_forward client meanwhile n remote request =
    if not (is_member n.membership remote)
    then (n, forward_response n false n.control_plane.committed_index)
    else let (n', result) =
        commit_or_forward_session client meanwhile n request.entry request.now in
      elim result [
        | ok index ↦ (n', forward_response n' true index)
        | err e ↦ (n', forward_response n' false n'.control_plane.committed_index)
      ]

abbrev pub renew_session :
    OwnerPeerControlClient
    → Meanwhile
    → OwnerElectionNode
    → P2pId
    → Duration
    → Timestamp
    → OwnerElectionNode × P2pResult ℕ
renew_session client meanwhile n serving ttl now =
    commit_or_forward_session client meanwhile n
      (renew_serving_session (online_session serving ttl now)) now

abbrev pub revoke_session :
    OwnerPeerControlClient
    → Meanwhile
    → OwnerElectionNode
    → P2pId
    → Timestamp
    → OwnerElectionNode × P2pResult ℕ
revoke_session client meanwhile n serving now =
    commit_or_forward_session client meanwhile n (revoke_serving_session serving) now
