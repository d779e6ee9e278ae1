-- ===== src/Examples/Claims.antt =====
-- The theorems on TCP tunnels at concrete inputs.
use bucky_p2p.Base.{
  ℕ, ◌≡◌, ◌≢◌, ◌<◌, ◌^◌, ◌⊎◌, refl, List, [], ◌∷◌, none, some, true, false, arith, any, countp, ok,
}
use bucky_p2p.Tcp.Correlation.{
  ReverseOpenCorrelationEvent, arrival, arrival_registered, success_response, failure,
  new_correlation, apply_all,
}
use bucky_p2p.Tcp.Matching.{is_complete, arrives, registers, succeeds, apply_all_complete}
use bucky_p2p.Tcp.LeaseEvents.{
  LeaseEvent, reads, writes, drops_read, drops_write, gets_write_fin, gets_read_done, lease_events,
}
use bucky_p2p.Tcp.Steps.{finishes, confirms}
use bucky_p2p.Tcp.Drained.{bound_conn, lease_events-idle}
use bucky_p2p.Tcp.Claims.{
  ClaimingState, stream, process_claim_req, RecentClaimRecord, record_of, ClaimReqProcessing,
  claim_response_cmd, ack, DataConnEntry, first_claim_pending, ClaimConnReq,
}
use bucky_p2p.Tcp.Conflicts.{process_claim_req-twice}
use bucky_p2p.Tcp.Crossing.{request_of, claiming_entry, Wins, Yields, process_claim_req-crossing}
use bucky_p2p.Tcp.Ids.{
  active, passive, next_local_id_value, next_local_id_value-terminates,
  next_local_id_value-disjoint,
}
use bucky_p2p.Examples.Samples.{alice, bob}

-- Five bytes are read and three are written before both ends are done.
abbrev whole_lease : List LeaseEvent
whole_lease =
    reads 5
    ∷ writes 3
    ∷ gets_write_fin (record { channel_id = 4; lease_seq = 2; final_tx_bytes = 5 })
    ∷ drops_read
    ∷ drops_write
    ∷ gets_read_done (record { channel_id = 4; lease_seq = 2; final_rx_bytes = 3 })
    ∷ []

lease_events-idle_example :
    let l = (lease_events (bound_conn 2 4) whole_lease).lease in
    (l.read_released ≡ true)
    × (l.write_released ≡ true)
    × (any (finishes 2 4 l.rx_bytes) whole_lease ≡ true)
    × (any (confirms 2 4 l.tx_bytes) whole_lease ≡ true)
unfolding lease_events
lease_events-idle_example = lease_events-idle 2 4 whole_lease refl

abbrev joined_events : List ReverseOpenCorrelationEvent
joined_events = success_response 9 ∷ arrival 9 ∷ arrival_registered 9 ∷ failure ∷ []

apply_all_complete_example :
    (countp is_complete (apply_all new_correlation joined_events).1 ≡ 1)
    × (any (arrives 9) joined_events ≡ true)
    × (any (registers 9) joined_events ≡ true)
    × (any (succeeds 9) joined_events ≡ true)
unfolding apply_all
apply_all_complete_example = apply_all_complete joined_events 9 refl

abbrev claim : ℕ → ℕ → ClaimingState
claim channel nonce = record {
  lease_seq = 6;
  channel_id = channel;
  claim_nonce = nonce;
  kind = stream;
  purpose = 1 ∷ [];
}

-- The record of the claim of the lease before.
abbrev claimed_before : RecentClaimRecord
claimed_before = record_of (request_of 3 (record (claim 8 9) { lease_seq = 5 })) ack

process_claim_req-crossing_example :
    let to_a = request_of 3 (claim 20 77) in
    let to_b = request_of 3 (claim 10 77) in
    let at_a =
      process_claim_req alice bob
        (claiming_entry true 5 (claim 10 77) (some claimed_before))
        to_a
        none
        none in
    let at_b =
      process_claim_req bob alice (claiming_entry false 5 (claim 20 77) none) to_b none none in
    (Wins at_a (claim 10 77) to_a × Yields at_b (claim 20 77) to_b)
    ⊎ (Yields at_a (claim 10 77) to_a × Wins at_b (claim 20 77) to_b)
process_claim_req-crossing_example =
    process_claim_req-crossing alice bob true false 5 (claim 10 77) (claim 20 77)
      (some claimed_before) none 3 (λ q. cc q) refl (omega arith) tt

abbrev fresh_entry : DataConnEntry
fresh_entry = record {
  first_claim_local = false;
  has_stream = true;
  committed_lease_seq = 0;
  state = first_claim_pending;
  recent_claim = none;
}

abbrev first_request : ClaimConnReq
first_request = record {
  channel_id = 11;
  kind = stream;
  purpose = 1 ∷ [];
  conn_id = 3;
  lease_seq = 1;
  claim_nonce = 5;
}

abbrev accepted_first : ClaimReqProcessing
accepted_first = record {
  response = claim_response_cmd first_request ack;
  accepted = some 11;
  local_conflict_channel = none;
}

process_claim_req-twice_example :
    process_claim_req alice bob
      (process_claim_req alice bob fresh_entry first_request none none).0
      first_request
      none
      none
    ≡ (
      (process_claim_req alice bob fresh_entry first_request none none).0,
      ok (record {
        response = accepted_first.response;
        accepted = none;
        local_conflict_channel = none;
      }),
    )
unfolding process_claim_req
process_claim_req-twice_example =
    process_claim_req-twice alice bob fresh_entry first_request none none none none accepted_first
      refl

next_local_id_value-terminates_example :
    (next_local_id_value 9 passive 2_147_483_648 ≡ next_local_id_value 2 passive 2_147_483_648)
    × (next_local_id_value 9 passive 2_147_483_648 ≢ none)
next_local_id_value-terminates_example =
    next_local_id_value-terminates 9 passive 2_147_483_648 (omega arith) (omega arith)

abbrev first_passive : ℕ
first_passive = 2_147_483_649

abbrev first_active : ℕ
first_active = 1

next_local_id_value-disjoint_example :
    (first_passive ≢ first_active)
    × (0 < first_passive)
    × (0 < first_active)
    × (first_passive < 2 ^ 32)
    × (first_active < 2 ^ 32)
unfolding next_local_id_value
next_local_id_value-disjoint_example =
    next_local_id_value-disjoint 2 2 1 1 2 2 first_passive first_active active (λ q. cc q) refl refl
