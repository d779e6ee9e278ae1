-- ===== src/Examples/Owners.antt =====
-- The theorems on the directory of the owners at concrete inputs, and two leaders in one term.
use bucky_p2p.Base.{
  ◌||◌, ℕ, suc, ◌+◌, ◌≡◌, ◌≢◌, ◌≤◌, ◌<◌, refl, List, [], ◌∷◌, ◌++◌, Option, none, some, Bool, true,
  false, arith, All, min, ok, err, P2pResult, P2pErrorCode, Timestamp, countp, length, from_secs,
  if◌then◌else◌, ◌≟◌, Eq, Duration, saturating_add,
}
use bucky_p2p.Identity.{P2pId, id_eq}
use bucky_p2p.Directory.Membership.{
  OwnerMemberHealth, new_health, refresh_at, owner_set_at, member_is_fresh, is_member,
  OwnerMembership, bare_member, static_owner_set, to_bucky_time, is_member,
}
use bucky_p2p.Directory.Membership.Laws.{owner_set_at_sound}
use bucky_p2p.Directory.ControlPlane.{
  OwnerControlPlane, OwnerSessionEntry, renew_serving_session, revoke_serving_session,
  new_control_plane, renew_serving_online, mark_serving_offline, is_serving_online, quorum_size,
  online_session, append_as_leader,
}
use bucky_p2p.Directory.ControlPlane.Laws.{
  Operation, voter_active, elect, append, PlaneInv, run, run-PlaneInv,
}
use bucky_p2p.Directory.Store
use bucky_p2p.Directory.Store.{OwnerDirectoryStore, with_membership, query}
use bucky_p2p.Directory.Store.Laws.{IsLive, query-IsLive}
use bucky_p2p.Directory.Store.Revoked.{
  StoreCall, puts_route, renews, revokes, serve_store_all, revoke_serving_session-query,
}
use bucky_p2p.Directory.Election.Node.{
  OwnerElectionNode, OwnerVoteRequest, OwnerVoteResponse, OwnerHeartbeatRequest,
  OwnerHeartbeatResponse, leader, new_node, receive_vote_request, receive_heartbeat, become_leader,
  remote_members,
}
use bucky_p2p.Directory.Election.Rounds.{
  OwnerPeerControlClient, Meanwhile, begin_election, start_election, replicate_and_commit,
}
use bucky_p2p.Directory.Election.Votes.{Request, votes, OneVotePerTerm, votes-OneVotePerTerm}
use bucky_p2p.Directory.Election.Terms.{
  Message, vote_request, heartbeat, receive_all, receive_all-term, become_leader_lowers,
}
use bucky_p2p.Directory.Election.Quorum.{
  grants, accepts, start_election-quorum, replicate_and_commit-quorum,
}
use bucky_p2p.Directory.Election.TwoLeaders.{receive_heartbeat-second_vote}
use bucky_p2p.Examples.Samples.{alice, bob, carol}

abbrev owners : OwnerMembership
owners = record {
  members = bare_member alice ∷ bare_member bob ∷ bare_member carol ∷ [];
  owner_count = 2;
  lease_ttl = from_secs 300;
  member_health_ttl = from_secs 60;
}

abbrev plane : OwnerControlPlane
plane = new_control_plane owners

abbrev bob_health : OwnerMemberHealth
bob_health = refresh_at (new_health (from_secs 60)) bob 100

owner_set_at_sound_example :
    let found =
      owner_set_at
        (λ peer member. length member.bytes)
        (some owners)
        carol
        alice
        (some bob_health)
        200 in
    All
      (λ id.
        (is_member owners id ≡ true) × ((id ≟ alice || member_is_fresh bob_health id 200) ≡ true))
      found
    × (length found ≤ 2)
owner_set_at_sound_example =
    owner_set_at_sound (λ peer member. length member.bytes) owners carol alice bob_health 200

abbrev operations : List Operation
operations =
    append alice (renew_serving_session (online_session bob (from_secs 10) 5)) 5
    ∷ voter_active carol false
    ∷ elect bob
    ∷ append alice (revoke_serving_session bob) 6
    ∷ []

run-PlaneInv_example : PlaneInv owners (run plane operations)
run-PlaneInv_example = run-PlaneInv owners operations

abbrev renewed : OwnerControlPlane
renewed = (renew_serving_online plane alice bob (from_secs 10) 5).0

abbrev store : OwnerDirectoryStore
store = record { control_plane = renewed; routes = [] }

abbrev leased : OwnerDirectoryStore
leased =
    (Store.put_lease store
      (record { peer_id = carol; serving_sn_id = bob; sequence = 1; expires_at = 9_000_000 }) 6).0

query-IsLive_example :
    let (d', leases) = query leased carol 100 in All (IsLive d'.control_plane 100) leases
query-IsLive_example = query-IsLive leased carol 100

-- After Bob's session is revoked: he is revoked again, his route comes once more, and Alice is renewed.
abbrev afterwards : List (Timestamp × StoreCall)
afterwards =
    (8, revokes bob)
    ∷ (9, puts_route (record { peer_id = carol; serving_sn_id = bob; sequence = 2 }))
    ∷ (10, renews alice (from_secs 10))
    ∷ []

revoke_serving_session-query_example :
    All
      (λ lease. lease.serving_sn_id ≢ bob)
      (query (serve_store_all (Store.revoke_serving_session leased bob 7).0 afterwards) carol 8).1
unfolding Store.revoke_serving_session Store.put_lease append_as_leader new_control_plane
    bucky_p2p.Identity.P2pId-discrete bucky_p2p.Base.ℕ_discrete Store.put_route is_serving_online
    bucky_p2p.Base.get bucky_p2p.Directory.ControlPlane.apply_entry bucky_p2p.Base.insert
revoke_serving_session-query_example =
    revoke_serving_session-query leased bob carol 7 8 3 afterwards refl (omega arith)
      (tt, (tt, (λ q. cc q, tt)))

abbrev node : OwnerElectionNode
node = new_node bob owners plane 0

abbrev requests : List Request
requests =
    (alice, (record { term = 1; candidate_id = alice }, 10))
    ∷ (carol, (record { term = 1; candidate_id = carol }, 11))
    ∷ []

votes-OneVotePerTerm_example : OneVotePerTerm (votes node requests)
votes-OneVotePerTerm_example = votes-OneVotePerTerm node requests

abbrev messages : List Message
messages =
    vote_request alice (record { term = 4; candidate_id = alice }) 10
    ∷ heartbeat carol (record { term = 2; leader_id = carol; committed_index = 0 }) 11
    ∷ []

receive_all-term_example : node.current_term ≤ (receive_all node messages).current_term
receive_all-term_example = receive_all-term node messages

-- Alice grants and accepts, and carol does not answer.
abbrev friends : OwnerPeerControlClient
friends = record {
  request_vote = λ member request.
      if member ≟ alice
      then ok (record { term = request.term; vote_granted = true; leader_id = none })
      else err P2pErrorCode.timeout;
  send_heartbeat = λ member request. err P2pErrorCode.timeout;
  replicate_session = λ member request.
      if member ≟ alice
      then ok
          (record { term = request.term; accepted = true; committed_index = 0; leader_id = none })
      else err P2pErrorCode.timeout;
  forward_session = λ member request. err P2pErrorCode.timeout;
}

start_election-quorum_example :
    let n' = begin_election node 20 in
    (bob ≡ node.local_owner_id)
    × (quorum_size node.membership
        ≤ 1 + countp (grants friends n' n'.current_term) (remote_members n'))
unfolding start_election bucky_p2p.Directory.Election.Rounds.finish_election
    bucky_p2p.Directory.Election.Rounds.poll begin_election new_node
    bucky_p2p.Identity.P2pId-discrete bucky_p2p.Base.ℕ_discrete become_leader
    bucky_p2p.Directory.ControlPlane.set_known_leader bucky_p2p.Directory.Membership.find_member
    new_control_plane
start_election-quorum_example = start_election-quorum friends node 20 bob refl

abbrev led : OwnerElectionNode
led = (start_election friends node 20).0

-- While Bob waits for the answers, he votes for Carol in a newer term.
abbrev outvoted : Meanwhile
outvoted n = receive_all n (vote_request carol (record { term = 9; candidate_id = carol }) 30 ∷ [])

abbrev dropping : OwnerSessionEntry
dropping = revoke_serving_session carol

replicate_and_commit-quorum_example :
    let after = (replicate_and_commit friends outvoted led dropping 30).0 in
    (led.role ≡ leader)
    × (quorum_size led.membership
        ≤ 1 + countp (accepts friends led dropping 30) (remote_members led))
    × (1 ≡ suc (length (outvoted led).control_plane.log))
    × (after.control_plane.log ≡ (outvoted led).control_plane.log ++ dropping ∷ [])
    × (after.control_plane.leader_id ≡ some led.local_owner_id)
    × (after.role ≡ (outvoted led).role)
unfolding replicate_and_commit bucky_p2p.Directory.Election.Node.require_leader start_election
    bucky_p2p.Directory.Election.Rounds.finish_election bucky_p2p.Directory.Election.Rounds.poll
    begin_election new_node bucky_p2p.Identity.P2pId-discrete bucky_p2p.Base.ℕ_discrete
    become_leader bucky_p2p.Directory.ControlPlane.set_known_leader
    bucky_p2p.Directory.Membership.find_member new_control_plane
    bucky_p2p.Directory.Election.Rounds.send_heartbeat
    bucky_p2p.Directory.ControlPlane.apply_committed_session_entry receive_all
    bucky_p2p.Directory.Election.Terms.receive receive_vote_request
replicate_and_commit-quorum_example =
    replicate_and_commit-quorum friends outvoted led dropping 30 1 refl refl

become_leader_lowers_example :
    let begun = begin_election node 20 in
    let (voted, response) =
      receive_vote_request begun alice (record { term = 3; candidate_id = alice }) 20 in
    let led = (become_leader voted begun.current_term 20).0 in
    (response.vote_granted ≡ true)
    × (voted.current_term ≡ 3)
    × (led.role ≡ leader)
    × (led.current_term < 3)
unfolding bucky_p2p.Directory.Membership.find_member new_node bucky_p2p.Identity.P2pId-discrete
    bucky_p2p.Base.ℕ_discrete begin_election
become_leader_lowers_example =
    become_leader_lowers node 20 (record { term = 3; candidate_id = alice }) refl (omega arith)

receive_heartbeat-second_vote_example :
    let (voted, granted) =
      receive_vote_request node alice (record { term = 1; candidate_id = alice }) 10 in
    let (following, accepted) =
      receive_heartbeat voted alice
        (record { term = 1; leader_id = alice; committed_index = 0 })
        11 in
    let (after, again) =
      receive_vote_request following carol (record { term = 1; candidate_id = carol }) 12 in
    (granted.vote_granted ≡ true)
    × (accepted.accepted ≡ true)
    × (following.leader_id ≡ some alice)
    × (again.vote_granted ≡ true)
    × (again.term ≡ 1)
unfolding bucky_p2p.Directory.Membership.find_member new_node bucky_p2p.Identity.P2pId-discrete
    bucky_p2p.Base.ℕ_discrete
receive_heartbeat-second_vote_example =
    receive_heartbeat-second_vote node alice carol 1 0 10 11 12 refl refl (omega arith)

-- Alice is elected with the vote of bob, bob accepts her heartbeat, and carol is elected with the vote of
-- bob in the same term.
abbrev answering : OwnerElectionNode → OwnerPeerControlClient
answering peer = record friends {
  request_vote = λ member request.
      if member ≟ peer.local_owner_id
      then ok (receive_vote_request peer request.candidate_id request 30).1
      else err P2pErrorCode.timeout;
}

abbrev alice_led : OwnerElectionNode
alice_led = (start_election (answering node) (new_node alice owners plane 0) 30).0

abbrev bob_voted : OwnerElectionNode
bob_voted = (receive_vote_request node alice (record { term = 1; candidate_id = alice }) 30).0

abbrev bob_following : OwnerElectionNode
bob_following =
    (receive_heartbeat bob_voted alice (record { term = 1; leader_id = alice; committed_index = 0 })
      31).0

abbrev carol_led : OwnerElectionNode
carol_led = (start_election (answering bob_following) (new_node carol owners plane 0) 40).0

two_leaders :
    (alice_led.role ≡ leader)
    × (alice_led.current_term ≡ 1)
    × (carol_led.role ≡ leader)
    × (carol_led.current_term ≡ 1)
unfolding start_election bucky_p2p.Directory.Election.Rounds.finish_election
    bucky_p2p.Directory.Election.Rounds.poll begin_election new_node
    bucky_p2p.Identity.P2pId-discrete bucky_p2p.Base.ℕ_discrete receive_vote_request
    bucky_p2p.Directory.Membership.find_member become_leader
    bucky_p2p.Directory.ControlPlane.set_known_leader new_control_plane
    bucky_p2p.Directory.Election.Rounds.send_heartbeat
    bucky_p2p.Directory.Election.Node.require_leader receive_heartbeat
two_leaders = (refl, refl, refl, refl)
