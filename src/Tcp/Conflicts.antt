-- ===== src/Tcp/Conflicts.antt =====
-- A claim of one data connection (Tcp/Claims) that is repeated.
use bucky_p2p.Base.{◌≡◌, ◌≢◌, ◌⊎◌, inl, inr, refl, true, Option, none, some, arith, ok}
use bucky_p2p.Identity.{P2pId}
use bucky_p2p.Tcp.{TcpChannelId}
use bucky_p2p.Tcp.Claims.{
  ClaimConnReq, ClaimConnAckResult, DataConnEntry, RecentClaimResponse, ack, refused,
  RecentClaimRecord, record_of, bind_claimed, carry_out, ClaimDecision, replay, accept, refuse,
  conflict_win, conflict_lose, ClaimReqProcessing, claim_response_cmd, process_claim_req,
  decide_by_state, decide_by_record, claim_record_matches,
}

claim_record_matches-record_of :
    (req : ClaimConnReq) (response : RecentClaimResponse)
    → claim_record_matches req (record_of req response) ≡ true
unfolding claim_record_matches
claim_record_matches-record_of req response = ground arith

recorded_twice :
    (local_id remote_id : P2pId) (e : DataConnEntry) (req : ClaimConnReq)
    (response : RecentClaimResponse) (target slot : Option ClaimConnAckResult)
    → e.recent_claim ≡ some (record_of req response)
    → process_claim_req local_id remote_id e req target slot ≡ (
      e,
      ok (record {
        response = claim_response_cmd req response;
        accepted = none;
        local_conflict_channel = none;
      }),
    )
unfolding process_claim_req decide_by_record
recorded_twice local_id remote_id e req response target slot h =
    rw (h, process_claim_req) (ground (arith, claim_record_matches-record_of req response))

replay_or_recorded :
    (local_id remote_id : P2pId) (e : DataConnEntry) (req : ClaimConnReq)
    (target slot : Option ClaimConnAckResult) (p : ClaimReqProcessing)
    → (process_claim_req local_id remote_id e req target slot).1 ≡ ok p
    → (r : RecentClaimResponse) × (p.response ≡ claim_response_cmd req r)
      × (((process_claim_req local_id remote_id e req target slot).0.recent_claim
            ≡ some (record_of req r))
          ⊎ (((process_claim_req local_id remote_id e req target slot).0 ≡ e)
              × (decide_by_record e.recent_claim req
                    (decide_by_state local_id remote_id e req target)
                  ≡ replay r)))
unfolding process_claim_req
replay_or_recorded local_id remote_id e req target slot p =
    carried (decide_by_record e.recent_claim req (decide_by_state local_id remote_id e req target))
  where
    Shows : ClaimDecision → Type 0
    Shows d =
        (r : RecentClaimResponse) × (p.response ≡ claim_response_cmd req r)
        × (((carry_out e req slot d).0.recent_claim ≡ some (record_of req r))
            ⊎ (((carry_out e req slot d).0 ≡ e) × (d ≡ replay r)))

    bound_shows :
        (o : Option ClaimConnAckResult) (conflict : Option TcpChannelId)
        → (bind_claimed e req o conflict).1 ≡ ok p
        → (r : RecentClaimResponse) × (p.response ≡ claim_response_cmd req r)
          × ((bind_claimed e req o conflict).0.recent_claim ≡ some (record_of req r))
    bound_shows (some reason) conflict h = (refused reason, ground arith, refl)
    bound_shows none conflict h = (ack, ground arith, ground arith)

    carried : (d : ClaimDecision) → (carry_out e req slot d).1 ≡ ok p → Shows d
    carried (replay response) h = (response, ground arith, inr (refl, refl))
    carried (refuse result) h = (refused result, ground arith, inl refl)
    carried conflict_win h = (refused ClaimConnAckResult.conflict_lost, ground arith, inl refl)
    carried (conflict_lose channel) h =
        let (r, q, k) = bound_shows slot (some channel) h in (r, q, inl k)
    carried accept h = let (r, q, k) = bound_shows slot none h in (r, q, inl k)

decide_by_state-not_replay :
    (local_id remote_id : P2pId) (e : DataConnEntry) (req : ClaimConnReq)
    (target : Option ClaimConnAckResult) (r : RecentClaimResponse)
    → decide_by_state local_id remote_id e req target ≢ replay r
unfolding decide_by_state
decide_by_state-not_replay local_id remote_id e req target r = ground arith

record_replays :
    (o : Option RecentClaimRecord) (req : ClaimConnReq) (d d' : ClaimDecision)
    (r : RecentClaimResponse)
    → d ≢ replay r
    → decide_by_record o req d ≡ replay r
    → decide_by_record o req d' ≡ replay r
unfolding decide_by_record
record_replays none req d d' r n h = absurd (n h)
record_replays (some record_before) req d d' r n h = ground arith

replayed_twice :
    (local_id remote_id : P2pId) (e : DataConnEntry) (req : ClaimConnReq)
    (target target' slot slot' : Option ClaimConnAckResult) (r : RecentClaimResponse)
    → decide_by_record e.recent_claim req (decide_by_state local_id remote_id e req target)
      ≡ replay r
    → process_claim_req local_id remote_id e req target' slot' ≡ (
      e,
      ok (record {
        response = claim_response_cmd req r;
        accepted = none;
        local_conflict_channel = none;
      }),
    )
unfolding process_claim_req
replayed_twice local_id remote_id e req target target' slot slot' r h =
    let again =
      record_replays e.recent_claim req (decide_by_state local_id remote_id e req target)
        (decide_by_state local_id remote_id e req target') r
        (decide_by_state-not_replay local_id remote_id e req target r) h in
    rw again refl

-- A claim that is repeated gets the answer of the first time, and nothing is bound again, whatever the
-- listeners and the accept queue have become in between.
pub process_claim_req-twice :
    (local_id remote_id : P2pId) (e : DataConnEntry) (req : ClaimConnReq)
    (target target' slot slot' : Option ClaimConnAckResult) (p : ClaimReqProcessing)
    → (process_claim_req local_id remote_id e req target slot).1 ≡ ok p
    → process_claim_req local_id remote_id
        (process_claim_req local_id remote_id e req target slot).0
        req
        target'
        slot'
      ≡ (
        (process_claim_req local_id remote_id e req target slot).0,
        ok (record { response = p.response; accepted = none; local_conflict_channel = none }),
      )
process_claim_req-twice local_id remote_id e req target target' slot slot' p h =
    let (r, q, k) = replay_or_recorded local_id remote_id e req target slot p h in
    rw q (elim k [
      | inl recorded ↦ recorded_twice local_id remote_id _ req r target' slot' recorded
      | inr (same, replays) ↦
          rw same (replayed_twice local_id remote_id e req target target' slot slot' r replays)
    ])
