-- ===== src/Directory/Election/Votes.antt =====
-- p2p-frame/src/sn/directory/election.rs: what `receive_vote_request` promises over a sequence of
-- requests.
use bucky_p2p.Base.{
  ℕ, ◌≡◌, true, some, List, [], ◌∷◌, if◌then◌else◌, Timestamp, All, arith, ◌<◌, ◌⊎◌, inl, inr,
}
use bucky_p2p.Identity.{P2pId}
use bucky_p2p.Directory.Election.Node.{
  OwnerElectionNode, OwnerVoteRequest, OwnerVoteResponse, receive_vote_request,
}

-- A request with its sender and the time of its arrival.
abbrev pub Request : Type 0
Request = P2pId × (OwnerVoteRequest × Timestamp)

abbrev pub granted_vote : OwnerVoteRequest → OwnerVoteResponse → List (ℕ × P2pId) → List (ℕ × P2pId)
granted_vote request response votes =
    if response.vote_granted then (request.term, request.candidate_id) ∷ votes else votes

-- The votes that a node gives while it answers the requests in order: terms and candidates.
unfoldable pub votes : OwnerElectionNode → List Request → List (ℕ × P2pId)
votes n [] = []
votes n ((remote, (request, now)) ∷ rest) =
    let (n', response) = receive_vote_request n remote request now in
    granted_vote request response (votes n' rest)

-- A vote that a node may still give.
abbrev Open : OwnerElectionNode → ℕ × P2pId → Type 0
Open n (term, chosen) =
    (n.current_term < term)
    ⊎ ((n.current_term ≡ term) × ((voted : P2pId) → n.voted_for ≡ some voted → chosen ≡ voted))

Open-receive_vote_request :
    (n : OwnerElectionNode) (remote : P2pId) (request : OwnerVoteRequest) (now : Timestamp)
    (vote : ℕ × P2pId)
    → Open (receive_vote_request n remote request now).0 vote
    → Open n vote
unfolding receive_vote_request
Open-receive_vote_request n remote request now vote h = ground arith

receive_vote_request-granted :
    (n : OwnerElectionNode) (remote : P2pId) (request : OwnerVoteRequest) (now : Timestamp)
    → let (n', response) = receive_vote_request n remote request now in
      response.vote_granted ≡ true
      → (n'.current_term ≡ request.term) × (n'.voted_for ≡ some request.candidate_id)
unfolding receive_vote_request
receive_vote_request-granted n remote request now h = ground arith

Open-granted :
    (n : OwnerElectionNode) (remote : P2pId) (request : OwnerVoteRequest) (now : Timestamp)
    → let (n', response) = receive_vote_request n remote request now in
      response.vote_granted ≡ true → Open n' (request.term, request.candidate_id)
Open-granted n remote request now h =
    let (same_term, same_vote) = receive_vote_request-granted n remote request now h in
    inr (same_term, λ voted q. cc)

All-Open :
    (n : OwnerElectionNode) (remote : P2pId) (request : OwnerVoteRequest) (now : Timestamp)
    (vs : List (ℕ × P2pId))
    → All (Open (receive_vote_request n remote request now).0) vs
    → All (Open n) vs
All-Open n remote request now [] h = tt
All-Open n remote request now (v ∷ vs) (h, hs) =
    (Open-receive_vote_request n remote request now v h, All-Open n remote request now vs hs)

All-granted_vote :
    (P : ℕ × P2pId → Type 0) (request : OwnerVoteRequest) (response : OwnerVoteResponse)
    (vs : List (ℕ × P2pId))
    → (response.vote_granted ≡ true → P (request.term, request.candidate_id))
    → All P vs
    → All P (granted_vote request response vs)
All-granted_vote P request response vs h hs = ground arith

votes-Open : (n : OwnerElectionNode) (rest : List Request) → All (Open n) (votes n rest)
unfolding votes
votes-Open n [] = tt
votes-Open n ((remote, (request, now)) ∷ rest) =
    let (n', response) = receive_vote_request n remote request now in
    All-granted_vote (Open n) request response (votes n' rest)
      (λ h.
        Open-receive_vote_request n remote request now (request.term, request.candidate_id)
          (Open-granted n remote request now h))
      (All-Open n remote request now (votes n' rest) (votes-Open n' rest))

-- A later vote of the same term is for the same candidate.
abbrev AgreesWith : ℕ × P2pId → ℕ × P2pId → Type 0
AgreesWith (term, chosen) (later_term, later_chosen) = later_term ≡ term → later_chosen ≡ chosen

-- Any two votes of one term are for one candidate.
abbrev pub OneVotePerTerm : List (ℕ × P2pId) → Type 0
OneVotePerTerm [] = Unit
OneVotePerTerm (v ∷ vs) = All (AgreesWith v) vs × OneVotePerTerm vs

Open-AgreesWith :
    (n : OwnerElectionNode) (v w : ℕ × P2pId)
    → n.current_term ≡ v.0
    → n.voted_for ≡ some v.1
    → Open n w
    → AgreesWith v w
Open-AgreesWith n (term, chosen) (later, later_chosen) same_term same_vote h same = elim h [
  | inl lt ↦ absurd (omega arith)
  | inr (_, agrees) ↦ agrees chosen same_vote
]

All-AgreesWith :
    (n : OwnerElectionNode) (v : ℕ × P2pId) (vs : List (ℕ × P2pId))
    → n.current_term ≡ v.0
    → n.voted_for ≡ some v.1
    → All (Open n) vs
    → All (AgreesWith v) vs
All-AgreesWith n v [] same_term same_vote h = tt
All-AgreesWith n v (w ∷ ws) same_term same_vote (h, hs) =
    (Open-AgreesWith n v w same_term same_vote h, All-AgreesWith n v ws same_term same_vote hs)

granted_vote-OneVotePerTerm :
    (request : OwnerVoteRequest) (response : OwnerVoteResponse) (vs : List (ℕ × P2pId))
    → (response.vote_granted ≡ true → All (AgreesWith (request.term, request.candidate_id)) vs)
    → OneVotePerTerm vs
    → OneVotePerTerm (granted_vote request response vs)
granted_vote-OneVotePerTerm request response vs h hs = ground arith

-- Over any sequence of vote requests, from any senders and at any times, all the votes that a node
-- gives in one term are for the same candidate.
pub votes-OneVotePerTerm : (n : OwnerElectionNode) (rs : List Request) → OneVotePerTerm (votes n rs)
unfolding votes
votes-OneVotePerTerm n [] = tt
votes-OneVotePerTerm n ((remote, (request, now)) ∷ rest) =
    let (n', response) = receive_vote_request n remote request now in
    granted_vote-OneVotePerTerm request response (votes n' rest)
      (λ h.
        let (same_term, same_vote) = receive_vote_request-granted n remote request now h in
        All-AgreesWith n' (request.term, request.candidate_id) (votes n' rest) same_term same_vote
          (votes-Open n' rest))
      (votes-OneVotePerTerm n' rest)
