-- ===== src/Tcp/Crossing.antt =====
-- Claims of one data connection (Tcp/Claims) that cross each other.
use bucky_p2p.Base.{
  ℕ, ◌≡◌, ◌≢◌, ◌⊎◌, inl, inr, refl, sym, Bool, true, false, not, Bool-cases, P2pResult, Option,
  none, some, arith, ok,
}
use mathlib.Core.Path.{subst}
use bucky_p2p.Identity.{P2pId, bytes_lt-other}
use bucky_p2p.Tcp.{TcpLeaseSeq}
use bucky_p2p.Tcp.Claims.{
  ClaimConnReq, ClaimConnAckResult, DataConnEntry, claiming, bound, ClaimingState, ack, refused,
  RecentClaimRecord, ClaimDecision, ClaimReqProcessing, claim_response_cmd, process_claim_req,
  decide_by_state, decide_by_record, local_simultaneous_claim_wins,
}

-- Of two peers that claim a connection at the same time exactly one wins, whatever the nonces are.
pub local_simultaneous_claim_wins-other :
    (a b : P2pId) (m n : ℕ)
    → a.bytes ≢ b.bytes
    → local_simultaneous_claim_wins a b m n ≡ not (local_simultaneous_claim_wins b a n m)
unfolding local_simultaneous_claim_wins
local_simultaneous_claim_wins-other a b m n h = ground (arith, bytes_lt-other a.bytes b.bytes)

-- The request of an end that is claiming.
abbrev pub request_of : ℕ → ClaimingState → ClaimConnReq
request_of conn c = record {
  channel_id = c.channel_id;
  kind = c.kind;
  purpose = c.purpose;
  conn_id = conn;
  lease_seq = c.lease_seq;
  claim_nonce = c.claim_nonce;
}

-- The connection of an end that has sent a claim, with the record of the last claim it has answered.
abbrev pub claiming_entry :
    Bool → TcpLeaseSeq → ClaimingState → Option RecentClaimRecord → DataConnEntry
claiming_entry first seq c recent = record {
  first_claim_local = first;
  has_stream = true;
  committed_lease_seq = seq;
  state = claiming c;
  recent_claim = recent;
}

-- No claim of this lease has been answered yet.
abbrev pub IsUnanswered : Option RecentClaimRecord → TcpLeaseSeq → Type 0
IsUnanswered none seq = Unit
IsUnanswered (some r) seq = r.lease_seq ≢ seq

unanswered :
    (recent : Option RecentClaimRecord) (req : ClaimConnReq) (d : ClaimDecision)
    → IsUnanswered recent req.lease_seq
    → decide_by_record recent req d ≡ d
unfolding decide_by_record
unanswered none req d h = refl
unanswered (some r) req d h = ground arith

-- What an end shows whose claim goes on: it is still claiming, and has answered the other claim with
-- `conflict_lost`.
abbrev pub Wins :
    DataConnEntry × P2pResult ClaimReqProcessing → ClaimingState → ClaimConnReq → Type 0
Wins at_end c req =
    (at_end.0.state ≡ claiming c)
    × (at_end.1
        ≡ ok (record {
          response = claim_response_cmd req (refused ClaimConnAckResult.conflict_lost);
          accepted = none;
          local_conflict_channel = none;
        }))

-- What an end shows whose claim has lost: it is bound to the channel of the other claim, has answered
-- that with success, and names the channel of its own claim.
abbrev pub Yields :
    DataConnEntry × P2pResult ClaimReqProcessing → ClaimingState → ClaimConnReq → Type 0
Yields at_end c req =
    (at_end.0.state ≡ bound req.channel_id)
    × (at_end.1
        ≡ ok (record {
          response = claim_response_cmd req ack;
          accepted = some req.channel_id;
          local_conflict_channel = some c.channel_id;
        }))

abbrev Ends :
    Bool → DataConnEntry × P2pResult ClaimReqProcessing → ClaimingState → ClaimConnReq → Type 0
Ends true at_end c req = Wins at_end c req
Ends false at_end c req = Yields at_end c req

-- An end that is claiming, can accept the other claim and has answered none of this lease: it wins or
-- yields as the comparison of the nonces says.
process_claim_req-claiming :
    (a b : P2pId) (first : Bool) (seq : TcpLeaseSeq) (c : ClaimingState)
    (recent : Option RecentClaimRecord) (req : ClaimConnReq) (wins : Bool)
    → req.lease_seq ≡ c.lease_seq
    → IsUnanswered recent req.lease_seq
    → local_simultaneous_claim_wins a b c.claim_nonce req.claim_nonce ≡ wins
    → let at_end = process_claim_req a b (claiming_entry first seq c recent) req none none in
      Ends wins at_end c req
unfolding process_claim_req decide_by_state
process_claim_req-claiming a b first seq c recent req true same h w =
    rw (unanswered recent req _ h) (ground arith)
process_claim_req-claiming a b first seq c recent req false same h w =
    rw (unanswered recent req _ h) (ground arith)

-- When two different peers claim their connection for the same lease at the same time, both can accept
-- and neither has answered a claim of this lease before, exactly one of the two claims is accepted. One
-- end is bound to the channel of the other, has answered that with success, and reports the channel of
-- its own claim as the one that lost; the other goes on claiming, accepts nothing and has answered with
-- `conflict_lost`.
pub process_claim_req-crossing :
    (a b : P2pId) (first first' : Bool) (seq : TcpLeaseSeq) (ca cb : ClaimingState)
    (recent recent' : Option RecentClaimRecord) (conn : ℕ)
    → a.bytes ≢ b.bytes
    → ca.lease_seq ≡ cb.lease_seq
    → IsUnanswered recent ca.lease_seq
    → IsUnanswered recent' cb.lease_seq
    → let to_a = request_of conn cb in
      let to_b = request_of conn ca in
      let at_a = process_claim_req a b (claiming_entry first seq ca recent) to_a none none in
      let at_b = process_claim_req b a (claiming_entry first' seq cb recent') to_b none none in
      (Wins at_a ca to_a × Yields at_b cb to_b) ⊎ (Yields at_a ca to_a × Wins at_b cb to_b)
process_claim_req-crossing a b first first' seq ca cb recent recent' conn h same old old' =
    let other = local_simultaneous_claim_wins-other a b ca.claim_nonce cb.claim_nonce h in
    let at_a =
      λ (w : Bool) (p : local_simultaneous_claim_wins a b ca.claim_nonce cb.claim_nonce ≡ w).
        process_claim_req-claiming a b first seq ca recent (request_of conn cb) w (sym same)
          (subst (IsUnanswered recent) same old) p in
    let at_b =
      λ (w : Bool) (p : local_simultaneous_claim_wins b a cb.claim_nonce ca.claim_nonce ≡ w).
        process_claim_req-claiming b a first' seq cb recent' (request_of conn ca) w same
          (subst (IsUnanswered recent') (sym same) old') p in
    elim (Bool-cases (local_simultaneous_claim_wins a b ca.claim_nonce cb.claim_nonce)) [
      | inl w ↦ inl (at_a true w, at_b false (ground arith))
      | inr w ↦ inr (at_a false w, at_b true (ground arith))
    ]
