-- ===== src/Examples/Requests.antt =====
-- The theorems on the rendezvous table and its messages at concrete inputs.
use bucky_p2p.Base.{
  ℕ, ◌+◌, ◌≡◌, ◌≢◌, refl, List, [], ◌∷◌, ok, err, true, false, arith, Timestamp, ◌⊎◌, P2pErrorCode,
}
use bucky_p2p.Identity.{P2pId}
use bucky_p2p.Endpoint.{
  Endpoint, EndpointArea, lan, server_reflexive, wan, mapped, endpoint_eq,
  rendezvous_reverse_connect_eligible_area,
}
use bucky_p2p.Net.{port}
use bucky_p2p.Rendezvous.Protocol.{
  SnTunnelRendezvousResp, validate_rendezvous_endpoints, punch_only, reverse_connect_only,
}
use bucky_p2p.Rendezvous.State.{
  RendezvousState, empty_state, begin, cache_response, in_flight, cached, max_request_lifetime,
}
use bucky_p2p.Rendezvous.Calls.{Call, begins, responds, fails, removes, run}
use bucky_p2p.Rendezvous.Limits.{Inv}
use bucky_p2p.Rendezvous.Invariant.{run-Inv}
use bucky_p2p.Rendezvous.Waiters.{run-waiting, times, waiting, answered}
use bucky_p2p.Rendezvous.Duplicates.{kept, begin-begin, begin-cache_response}
use bucky_p2p.Rendezvous.Lives.{Has}
use bucky_p2p.Rendezvous.Validation.{IsValid, validate_sound}
use bucky_p2p.Examples.Samples.{alice, bob, carol, reflexive, wait_request, wait_response}

-- A hash that reads the port and, as the derived one does, the area.
abbrev area_number : EndpointArea → ℕ
area_number lan = 0
area_number server_reflexive = 1
area_number wan = 2
area_number mapped = 3

abbrev sample_hash : Endpoint → ℕ
sample_hash e = area_number e.area + port e.addr

abbrev sample_calls : List (Timestamp × Call)
sample_calls =
    (10, begins alice wait_request 1)
    ∷ (20, begins alice wait_request 2)
    ∷ (30, responds alice wait_request wait_response)
    ∷ (40, removes bob)
    ∷ []

run-Inv_example : Inv (run sample_hash empty_state sample_calls).0
run-Inv_example = run-Inv sample_hash sample_calls

run-waiting_example :
    let (s, ws, sent) = run sample_hash empty_state sample_calls in
    times 2 ws ≡ waiting 2 s + answered 2 sent
run-waiting_example = run-waiting sample_hash 2 sample_calls

-- While Alice's request is under way: it is repeated, one of Bob's fails, and Carol leaves.
abbrev meanwhile : List (Timestamp × Call)
meanwhile =
    (11, begins alice wait_request 3) ∷ (12, fails bob wait_request) ∷ (13, removes carol) ∷ []

-- After its answer: it is repeated, one of Bob's is answered, and it is reported to have failed.
abbrev afterwards : List (Timestamp × Call)
afterwards =
    (16, begins alice wait_request 4)
    ∷ (17, responds bob wait_request wait_response)
    ∷ (18, fails alice wait_request)
    ∷ []

abbrev under_way : RendezvousState
under_way = (run sample_hash (begin empty_state alice wait_request 10 1).0 meanwhile).0

begin-begin_example :
    let result = (begin under_way alice wait_request 20 2).1 in
    (result ≡ ok (in_flight 2))
    ⊎ ((r : SnTunnelRendezvousResp) × Has alice wait_request (10 + max_request_lifetime) r under_way
        × (result ≡ ok (cached r)))
    ⊎ (result ≡ err P2pErrorCode.out_of_limit)
unfolding begin bucky_p2p.Rendezvous.State.begin_clean bucky_p2p.Base.get
    bucky_p2p.Rendezvous.State.cleanup bucky_p2p.Rendezvous.State.retain_entries
    bucky_p2p.Rendezvous.State.begin_new bucky_p2p.Rendezvous.State.pop_old
    bucky_p2p.Rendezvous.State.retain_rates
begin-begin_example =
    begin-begin sample_hash empty_state alice wait_request 10 20 1 2 meanwhile refl (omega arith)
      (omega arith, (λ q. cc q, ((λ q. cc q, λ q. cc q), tt))) (omega arith)

begin-cache_response_example :
    let answered = (cache_response sample_hash under_way alice wait_request wait_response 15).0 in
    (begin (run sample_hash answered afterwards).0 alice wait_request 20 2).1
    ≡ ok (cached (kept wait_request wait_response))
unfolding begin cache_response run bucky_p2p.Rendezvous.State.begin_clean bucky_p2p.Base.get
    bucky_p2p.Rendezvous.State.cleanup bucky_p2p.Rendezvous.State.retain_entries
    bucky_p2p.Rendezvous.State.begin_new bucky_p2p.Rendezvous.State.pop_old
    bucky_p2p.Rendezvous.State.retain_rates bucky_p2p.Base.insert
    bucky_p2p.Rendezvous.State.RendezvousKey-discrete bucky_p2p.Identity.P2pId-discrete
    bucky_p2p.Base.ℕ_discrete bucky_p2p.Rendezvous.State.cache_live
    bucky_p2p.Rendezvous.State.request_eq bucky_p2p.Rendezvous.Protocol.operation-discrete
    bucky_p2p.Rendezvous.State.endpoints_eq bucky_p2p.Rendezvous.Protocol.validate_response
    bucky_p2p.Rendezvous.Calls.step bucky_p2p.Rendezvous.State.begin_known
    bucky_p2p.Rendezvous.State.fail_unanswered bucky_p2p.Rendezvous.State.remove_peer
begin-cache_response_example =
    begin-cache_response sample_hash empty_state alice wait_request wait_response 10 15 20 1 2
      meanwhile afterwards refl (omega arith)
      (omega arith, (λ q. cc q, ((λ q. cc q, λ q. cc q), tt))) refl
      (omega arith, ((omega arith, λ q. cc q), (tt, tt))) (omega arith)

abbrev two_candidates : List Endpoint
two_candidates = reflexive 4000 ∷ reflexive 4001 ∷ []

validate_sound_example : IsValid sample_hash punch_only two_candidates
unfolding validate_rendezvous_endpoints bucky_p2p.Endpoint.Protocol-discrete
    bucky_p2p.Rendezvous.Protocol.check_endpoints bucky_p2p.Endpoint.rendezvous_eligible_area
    bucky_p2p.Endpoint.is_non_lan_ipv4_addr bucky_p2p.Endpoint.EndpointArea-discrete
validate_sound_example = validate_sound sample_hash two_candidates punch_only refl
