-- ===== src/Directory/Election/Node.antt =====
-- p2p-frame/src/sn/directory/election.rs: the messages, the state of a node and what it does with the
-- messages that it receives.
use bucky_p2p.Base.{
  ℕ, max, Bool, true, false, not, ◌&&◌, ◌||◌, Option, none, some, List, map, ltb, ◌==◌, ◌≟◌,
  if◌then◌else◌, length, keep, ok, err, P2pResult, P2pErrorCode, Timestamp, Duration, from_secs,
}
use bucky_p2p.Identity.{P2pId, id_eq}
use bucky_p2p.Directory.Membership.{OwnerMembership, is_member}
use bucky_p2p.Directory.ControlPlane.{
  OwnerControlPlane, OwnerSessionEntry, set_known_leader, apply_committed_session_entry, id_of,
}

abbrev pub default_heartbeat_timeout : Duration
default_heartbeat_timeout = from_secs 15

pub data OwnerElectionRole : Type 0 where
  follower candidate leader : OwnerElectionRole

pub record OwnerVoteRequest : Type 0 where
  pub term : ℕ
  pub candidate_id : P2pId

pub record OwnerVoteResponse : Type 0 where
  pub term : ℕ
  pub vote_granted : Bool
  pub leader_id : Option P2pId

pub record OwnerHeartbeatRequest : Type 0 where
  pub term : ℕ
  pub leader_id : P2pId
  pub committed_index : ℕ

pub record OwnerHeartbeatResponse : Type 0 where
  pub term : ℕ
  pub accepted : Bool
  pub leader_id : Option P2pId

pub record OwnerSessionReplication : Type 0 where
  pub term : ℕ
  pub leader_id : P2pId
  pub entry : OwnerSessionEntry
  pub now : Timestamp
  pub committed : Bool

pub record OwnerSessionReplicationResponse : Type 0 where
  pub term : ℕ
  pub accepted : Bool
  pub committed_index : ℕ
  pub leader_id : Option P2pId

pub record OwnerSessionForward : Type 0 where
  pub entry : OwnerSessionEntry
  pub now : Timestamp

pub record OwnerSessionForwardResponse : Type 0 where
  pub term : ℕ
  pub accepted : Bool
  pub committed_index : ℕ
  pub leader_id : Option P2pId

-- The node, with the state under its lock.
pub record OwnerElectionNode : Type 0 where
  pub local_owner_id : P2pId
  pub membership : OwnerMembership
  pub control_plane : OwnerControlPlane
  pub heartbeat_timeout : Duration
  pub role : OwnerElectionRole
  pub current_term : ℕ
  pub voted_for : Option P2pId
  pub leader_id : Option P2pId
  pub last_heartbeat_at : Timestamp

unfoldable pub new_node :
    P2pId → OwnerMembership → OwnerControlPlane → Timestamp → OwnerElectionNode
new_node local membership control_plane now =
    let single_member = length membership.members == 1 && is_member membership local in
    record {
      local_owner_id = local;
      membership = membership;
      control_plane = control_plane;
      heartbeat_timeout = default_heartbeat_timeout;
      role = if single_member then leader else follower;
      current_term = if single_member then 1 else 0;
      voted_for = if single_member then some local else none;
      leader_id = if single_member then some local else none;
      last_heartbeat_at = now;
    }

abbrev pub remote_members : OwnerElectionNode → List P2pId
remote_members n = map id_of (keep (λ m. not (m.sn_id ≟ n.local_owner_id)) n.membership.members)

abbrev pub vote_response : OwnerElectionNode → Bool → OwnerVoteResponse
vote_response n granted = record {
  term = n.current_term;
  vote_granted = granted;
  leader_id = n.leader_id;
}

-- A term that is newer makes the node a follower that has not voted.
abbrev pub catch_up : OwnerElectionNode → ℕ → OwnerElectionNode
catch_up n term =
    if ltb n.current_term term
    then record n { current_term = term; role = follower; voted_for = none; leader_id = none }
    else n

abbrev pub may_vote : Option P2pId → P2pId → Bool
may_vote none chosen = true
may_vote (some voted) chosen = voted ≟ chosen

-- The last part: the vote, if it is free.
abbrev pub cast_vote : OwnerElectionNode → P2pId → Timestamp → OwnerElectionNode × OwnerVoteResponse
cast_vote n chosen now =
    if may_vote n.voted_for chosen
    then (record n { voted_for = some chosen; last_heartbeat_at = now }, vote_response n true)
    else (n, vote_response n false)

unfoldable pub receive_vote_request :
    OwnerElectionNode → P2pId → OwnerVoteRequest → Timestamp → OwnerElectionNode × OwnerVoteResponse
receive_vote_request n remote request now =
    if not (is_member n.membership remote) || not (remote ≟ request.candidate_id)
    then (n, vote_response n false)
    else if ltb request.term n.current_term
    then (n, vote_response n false)
    else cast_vote (catch_up n request.term) request.candidate_id now

abbrev pub heartbeat_response : OwnerElectionNode → Bool → OwnerHeartbeatResponse
heartbeat_response n accepted = record {
  term = n.current_term;
  accepted = accepted;
  leader_id = n.leader_id;
}

-- The state that an accepted heartbeat leaves; the answer of the control plane is ignored.
abbrev pub follow : OwnerElectionNode → ℕ → P2pId → Timestamp → OwnerElectionNode
follow n term leader_id now = record n {
  current_term = term;
  role = follower;
  voted_for = none;
  leader_id = some leader_id;
  last_heartbeat_at = now;
  control_plane = (set_known_leader n.control_plane leader_id term).0;
}

unfoldable pub receive_heartbeat :
    OwnerElectionNode
    → P2pId
    → OwnerHeartbeatRequest
    → Timestamp
    → OwnerElectionNode × OwnerHeartbeatResponse
receive_heartbeat n remote request now =
    if not (is_member n.membership remote) || not (remote ≟ request.leader_id)
    then (n, heartbeat_response n false)
    else if ltb request.term n.current_term
    then (n, heartbeat_response n false)
    else let n' = follow n request.term request.leader_id now in (n', heartbeat_response n' true)

abbrev pub replication_response : OwnerElectionNode → Bool → OwnerSessionReplicationResponse
replication_response n accepted = record {
  term = n.current_term;
  accepted = accepted;
  committed_index = n.control_plane.committed_index;
  leader_id = n.leader_id;
}

-- A committed entry is applied to the control plane.
abbrev pub apply_replicated :
    OwnerElectionNode
    → OwnerSessionReplication
    → OwnerElectionNode × OwnerSessionReplicationResponse
apply_replicated n request =
    let (p, result) =
      apply_committed_session_entry n.control_plane request.leader_id request.term request.entry
        request.now in
    let n' = record n { control_plane = p } in
    elim result [
      | ok index ↦ (n', replication_response n' true)
      | err e ↦ (n', replication_response n' false)
    ]

unfoldable pub receive_session_replication :
    OwnerElectionNode
    → P2pId
    → OwnerSessionReplication
    → Timestamp
    → OwnerElectionNode × OwnerSessionReplicationResponse
receive_session_replication n remote request now =
    if not (is_member n.membership remote) || not (remote ≟ request.leader_id)
    then (n, replication_response n false)
    else let (n', heartbeat) =
        receive_heartbeat n remote
          (record {
            term = request.term;
            leader_id = request.leader_id;
            committed_index = n.control_plane.committed_index;
          })
          now in
      if not heartbeat.accepted
      then (n', replication_response n' false)
      else if not request.committed
      then (n', replication_response n' true)
      else apply_replicated n' request

-- The end of a successful election. The control plane may refuse the leader, after the state is set.
unfoldable pub become_leader :
    OwnerElectionNode → ℕ → Timestamp → OwnerElectionNode × P2pResult (Unit {0})
become_leader n term now =
    let (p, result) = set_known_leader n.control_plane n.local_owner_id term in
    (
      record n {
        role = leader;
        current_term = term;
        voted_for = some n.local_owner_id;
        leader_id = some n.local_owner_id;
        last_heartbeat_at = now;
        control_plane = p;
      },
      result,
    )

abbrev known_leader :
    OwnerElectionNode → Option P2pId → ℕ → OwnerElectionNode × P2pResult (Unit {0})
known_leader n none term = (n, ok tt)
known_leader n (some id) term =
    let (p, result) = set_known_leader n.control_plane id term in
    (record n { control_plane = p }, result)

unfoldable pub step_down :
    OwnerElectionNode → ℕ → Option P2pId → Timestamp → OwnerElectionNode × P2pResult (Unit {0})
step_down n term leader_id now =
    known_leader
      (record n {
        role = follower;
        current_term = max n.current_term term;
        voted_for = none;
        leader_id = leader_id;
        last_heartbeat_at = now;
      })
      leader_id term

abbrev pub is_leader_role : OwnerElectionRole → Bool
is_leader_role leader = true
is_leader_role candidate = false
is_leader_role follower = false

unfoldable pub require_leader : OwnerElectionNode → P2pResult (ℕ × P2pId)
require_leader n =
    if not (is_leader_role n.role)
    then err P2pErrorCode.permission_denied
    else ok (n.current_term, n.local_owner_id)
