-- ===== src/Directory/Election/Terms.antt =====
-- p2p-frame/src/sn/directory/election.rs: what the messages that a node receives do to its term.
use bucky_p2p.Base.{◌<◌, ◌≤◌, ◌≡◌, ◌≢◌, true, false, List, [], ◌∷◌, Timestamp, arith, u64_max}
use bucky_p2p.Identity.{P2pId, id_eq}
use bucky_p2p.Directory.Membership.{is_member}
use bucky_p2p.Directory.Election.Node.{
  OwnerElectionNode, leader, OwnerVoteRequest, OwnerHeartbeatRequest, OwnerSessionReplication,
  receive_vote_request, receive_heartbeat, receive_session_replication, become_leader,
}
use bucky_p2p.Directory.Election.Rounds.{begin_election}

-- What arrives at a node, with the sender and the time.
pub data Message : Type 0 where
  vote_request : P2pId → OwnerVoteRequest → Timestamp → Message
  heartbeat : P2pId → OwnerHeartbeatRequest → Timestamp → Message
  replication : P2pId → OwnerSessionReplication → Timestamp → Message

unfoldable pub receive : OwnerElectionNode → Message → OwnerElectionNode
receive n (vote_request remote request now) = (receive_vote_request n remote request now).0
receive n (heartbeat remote request now) = (receive_heartbeat n remote request now).0
receive n (replication remote request now) = (receive_session_replication n remote request now).0

unfoldable pub receive_all : OwnerElectionNode → List Message → OwnerElectionNode
unfolding receive
receive_all n [] = n
receive_all n (m ∷ ms) = receive_all (receive n m) ms

receive-term : (n : OwnerElectionNode) (m : Message) → n.current_term ≤ (receive n m).current_term
unfolding receive receive_vote_request receive_heartbeat receive_session_replication
receive-term n (vote_request remote request now) = ground arith
receive-term n (heartbeat remote request now) = ground arith
receive-term n (replication remote request now) = ground arith

-- The messages that a node receives never lower its term.
pub receive_all-term :
    (n : OwnerElectionNode) (ms : List Message) → n.current_term ≤ (receive_all n ms).current_term
unfolding receive_all
receive_all-term n [] = omega arith
receive_all-term n (m ∷ ms) = omega (arith, receive-term n m, receive_all-term (receive n m) ms)

-- A node that leads stays the leader of its term or becomes a follower of a leader of its term or of a
-- later term, or of none: a message never makes a node a leader.
pub receive-leader :
    (n : OwnerElectionNode) (m : Message)
    → (receive n m).role ≡ leader
    → (n.role ≡ leader) × ((receive n m).current_term ≡ n.current_term)
unfolding receive receive_vote_request receive_heartbeat receive_session_replication
receive-leader n (vote_request remote request now) h = ground arith
receive-leader n (heartbeat remote request now) h = ground arith
receive-leader n (replication remote request now) h = ground arith

-- The term that an election takes is new, unless the counter is exhausted; the node votes for itself in
-- it, and no vote request of that term from another member is then granted.
pub begin_election-own_vote :
    (n : OwnerElectionNode) (now later : Timestamp) (remote : P2pId) (request : OwnerVoteRequest)
    → n.current_term < u64_max
    → request.term ≤ (begin_election n now).current_term
    → request.candidate_id ≢ n.local_owner_id
    → let n' = begin_election n now in
      (n.current_term < n'.current_term)
      × ((receive_vote_request n' remote request later).1.vote_granted ≡ false)
unfolding begin_election receive_vote_request
begin_election-own_vote n now later remote request h le differs = ground arith

-- A vote of a newer term, given while an election of the node itself waits for its answers, does not
-- stop that election: if it then has its quorum, the node leads, in the old term, lower than the one in
-- which it has voted.
pub become_leader_lowers :
    (n : OwnerElectionNode) (now : Timestamp) (request : OwnerVoteRequest)
    → is_member n.membership request.candidate_id ≡ true
    → (begin_election n now).current_term < request.term
    → let begun = begin_election n now in
      let (voted, response) = receive_vote_request begun request.candidate_id request now in
      let led = (become_leader voted begun.current_term now).0 in
      (response.vote_granted ≡ true)
      × (voted.current_term ≡ request.term)
      × (led.role ≡ leader)
      × (led.current_term < request.term)
unfolding begin_election receive_vote_request become_leader
become_leader_lowers n now request member newer = ground arith
