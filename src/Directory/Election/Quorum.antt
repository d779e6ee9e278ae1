-- ===== src/Directory/Election/Quorum.antt =====
-- p2p-frame/src/sn/directory/election.rs: an election and a commit need the answers of a quorum.
use bucky_p2p.Base.{
  ℕ, suc, ◌+◌, ◌≤◌, max, ◌≡◌, refl, Bool, false, some, List, [], ◌∷◌, ◌++◌, countp, length,
  length-append, ok, err, P2pResult, Timestamp, arith,
}
use bucky_p2p.Identity.{P2pId}
use bucky_p2p.Directory.ControlPlane.{OwnerSessionEntry, quorum_size, apply_committed_session_entry}
use bucky_p2p.Directory.Election.Node.{OwnerElectionNode, remote_members, require_leader, leader}
use bucky_p2p.Directory.Election.Rounds.{
  OwnerPeerControlClient, Meanwhile, PeerAnswer, Poll, counted, newer, poll, poll_votes,
  poll_replication, begin_election, finish_election, start_election, replicate_and_commit,
  vote_answer, replication_answer, commit_counted,
}

-- A member that answers yes, in no newer term.
abbrev says_yes : P2pResult PeerAnswer → Bool
says_yes (err e) = false
says_yes (ok answer) = answer.positive

poll-counted_cons :
    (ask : P2pId → P2pResult PeerAnswer) (term : ℕ) (m : P2pId) (ms : List P2pId)
    (count highest votes top : ℕ) (reply : P2pResult PeerAnswer)
    → ask m ≡ reply
    → ((c h : ℕ)
        → poll ask term ms c h ≡ counted votes top
        → votes ≡ c + countp (λ m. says_yes (ask m)) ms)
    → poll ask term (m ∷ ms) count highest ≡ counted votes top
    → votes ≡ count + countp (λ m. says_yes (ask m)) (m ∷ ms)
unfolding poll
poll-counted_cons ask term m ms count highest votes top (err e) r ih h =
    ground (arith, ih count highest)
poll-counted_cons ask term m ms count highest votes top (ok answer) r ih h =
    ground (arith, ih count (max highest answer.term), ih (count + 1) (max highest answer.term))

poll-counted :
    (ask : P2pId → P2pResult PeerAnswer) (term : ℕ) (ms : List P2pId) (count highest votes top : ℕ)
    → poll ask term ms count highest ≡ counted votes top
    → votes ≡ count + countp (λ m. says_yes (ask m)) ms
unfolding poll
poll-counted ask term [] count highest votes top h = ground arith
poll-counted ask term (m ∷ ms) count highest votes top h =
    poll-counted_cons ask term m ms count highest votes top (ask m) refl
      (λ c h. poll-counted ask term ms c h votes top) h

abbrev pub grants : OwnerPeerControlClient → OwnerElectionNode → ℕ → P2pId → Bool
grants client n term member = says_yes (
    vote_answer
      (client.request_vote member (record { term = term; candidate_id = n.local_owner_id })))

finish_election-quorum :
    (client : OwnerPeerControlClient) (n : OwnerElectionNode) (now : Timestamp) (id : P2pId)
    (found : Poll)
    → poll_votes client n n.current_term ≡ found
    → (finish_election client n n.current_term found now).1 ≡ ok id
    → (id ≡ n.local_owner_id)
      × (quorum_size n.membership ≤ 1 + countp (grants client n n.current_term) (remote_members n))
unfolding finish_election
finish_election-quorum client n now id (newer answer) p h = ground arith
finish_election-quorum client n now id (counted votes top) p h =
    ground (arith, poll-counted _ n.current_term (remote_members n) 1 n.current_term votes top p)

-- An election that succeeds elects the node itself, with the votes of a quorum of the owners in its new
-- term, its own vote among them.
pub start_election-quorum :
    (client : OwnerPeerControlClient) (n : OwnerElectionNode) (now : Timestamp) (id : P2pId)
    → (start_election client n now).1 ≡ ok id
    → let n' = begin_election n now in
      (id ≡ n.local_owner_id)
      × (quorum_size n.membership
          ≤ 1 + countp (grants client n' n'.current_term) (remote_members n'))
unfolding start_election begin_election
start_election-quorum client n now id h =
    let n' = begin_election n now in
    finish_election-quorum client n' now id (poll_votes client n' n'.current_term) refl h

abbrev pub accepts :
    OwnerPeerControlClient → OwnerElectionNode → OwnerSessionEntry → Timestamp → P2pId → Bool
accepts client n entry now member = says_yes (
    replication_answer (
      client.replicate_session member (record {
        term = n.current_term;
        leader_id = n.local_owner_id;
        entry = entry;
        now = now;
        committed = false;
      })))

commit_counted-quorum :
    (client : OwnerPeerControlClient) (n m : OwnerElectionNode) (entry : OwnerSessionEntry)
    (now : Timestamp) (index : ℕ) (found : Poll)
    → m.membership ≡ n.membership
    → poll_replication client n n.current_term n.local_owner_id entry now ≡ found
    → (commit_counted m n.current_term n.local_owner_id entry now found).1 ≡ ok index
    → let after = (commit_counted m n.current_term n.local_owner_id entry now found).0 in
      (quorum_size n.membership ≤ 1 + countp (accepts client n entry now) (remote_members n))
      × (index ≡ suc (length m.control_plane.log))
      × (after.control_plane.log ≡ m.control_plane.log ++ entry ∷ [])
      × (after.control_plane.leader_id ≡ some n.local_owner_id)
      × (after.role ≡ m.role)
unfolding apply_committed_session_entry
commit_counted-quorum client n m entry now index (newer answer) same p h = ground arith
commit_counted-quorum client n m entry now index (counted votes top) same p h =
    let enough = poll-counted _ n.current_term (remote_members n) 1 n.current_term votes top p in
    let longer = length-append m.control_plane.log (entry ∷ []) in
    (ground arith, ground arith, ground arith, ground arith, ground arith)

-- A session change that a node commits, whatever its other tasks do while the members answer, as long
-- as they leave its membership: the node was the leader when the round began, and a quorum of the
-- owners has accepted the change in the term of that time, the node itself among them. The change is
-- appended to the log as it is at the end of the round, at the next index. The role that the node has
-- by then stays, and is not looked at: the control plane takes the node itself for the leader.
pub replicate_and_commit-quorum :
    (client : OwnerPeerControlClient) (meanwhile : Meanwhile) (n : OwnerElectionNode)
    (entry : OwnerSessionEntry) (now : Timestamp) (index : ℕ)
    → (meanwhile n).membership ≡ n.membership
    → (replicate_and_commit client meanwhile n entry now).1 ≡ ok index
    → let after = (replicate_and_commit client meanwhile n entry now).0 in
      (n.role ≡ leader)
      × (quorum_size n.membership ≤ 1 + countp (accepts client n entry now) (remote_members n))
      × (index ≡ suc (length (meanwhile n).control_plane.log))
      × (after.control_plane.log ≡ (meanwhile n).control_plane.log ++ entry ∷ [])
      × (after.control_plane.leader_id ≡ some n.local_owner_id)
      × (after.role ≡ (meanwhile n).role)
unfolding replicate_and_commit require_leader
replicate_and_commit-quorum client meanwhile n entry now index same h = ground (
  arith,
  commit_counted-quorum client n (meanwhile n) entry now index
      (poll_replication client n n.current_term n.local_owner_id entry now) same refl,
)
