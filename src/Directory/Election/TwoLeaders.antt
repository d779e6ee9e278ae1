-- ===== src/Directory/Election/TwoLeaders.antt =====
-- p2p-frame/src/sn/directory/election.rs: `receive_heartbeat` forgets the vote of the term.
use bucky_p2p.Base.{ℕ, ◌<◌, ◌≡◌, true, some, Timestamp, arith}
use bucky_p2p.Identity.{P2pId, id_eq}
use bucky_p2p.Directory.Membership.{is_member}
use bucky_p2p.Directory.Election.Node.{OwnerElectionNode, receive_vote_request, receive_heartbeat}

-- A node that has voted for one member in a term, and has then accepted a heartbeat of that term from
-- it, votes for any other member that asks in the same term: two members can have its vote in one term.
pub receive_heartbeat-second_vote :
    (n : OwnerElectionNode) (first second : P2pId) (term committed_index : ℕ)
    (at_vote at_heartbeat at_second : Timestamp)
    → is_member n.membership first ≡ true
    → is_member n.membership second ≡ true
    → n.current_term < term
    → let (voted, granted) =
        receive_vote_request n first (record { term = term; candidate_id = first }) at_vote in
      let (following, accepted) =
        receive_heartbeat voted first
          (record { term = term; leader_id = first; committed_index = committed_index })
          at_heartbeat in
      let (after, again) =
        receive_vote_request following second
          (record { term = term; candidate_id = second })
          at_second in
      (granted.vote_granted ≡ true)
      × (accepted.accepted ≡ true)
      × (following.leader_id ≡ some first)
      × (again.vote_granted ≡ true)
      × (again.term ≡ term)
unfolding receive_vote_request receive_heartbeat
receive_heartbeat-second_vote n first second term index at_vote at_heartbeat at_second m1 m2 lt =
    ground arith
