-- ===== src/Rendezvous/Protocol.antt =====
-- p2p-frame/src/sn/protocol/sn.rs: the rendezvous messages and their validation. A `HashSet` finds an
-- entry whose hash agrees and that is equal; the hash function is a parameter.
use bucky_p2p.Base.{
  ℕ, Bool, true, false, not, ◌&&◌, ◌||◌, Option, none, some, List, [], ◌∷◌, ltb, ◌==◌, Eq, ◌≟◌,
  if◌then◌else◌, length, any, is_empty, ok, err, P2pResult, P2pErrorCode, fail_if, ◌>>◌,
}
use bucky_p2p.Identity.{P2pId, id_eq}
use bucky_p2p.Types.{Sequence, TunnelId}
use bucky_p2p.Net.{port}
use bucky_p2p.Endpoint.{
  Endpoint, Protocol, tcp, quic, ext, protocol_eq, endpoint_eq, rendezvous_eligible_area,
  rendezvous_reverse_connect_eligible_area,
}

pub data SnTunnelRendezvousOperation : Type 0 where
  punch_only punch_and_reverse_connect reverse_connect_only wait_incoming :
      SnTunnelRendezvousOperation

unfoldable pub operation-discrete : Discrete SnTunnelRendezvousOperation
operation-discrete = hlevel

instance abbrev pub operation_eq : Eq SnTunnelRendezvousOperation
operation_eq = record { dec = operation-discrete }

abbrev pub requires_endpoints : SnTunnelRendezvousOperation → Bool
requires_endpoints wait_incoming = false
requires_endpoints _ = true

abbrev pub punches : SnTunnelRendezvousOperation → Bool
punches punch_only = true
punches punch_and_reverse_connect = true
punches _ = false

abbrev pub reverse_connects : SnTunnelRendezvousOperation → Bool
reverse_connects punch_and_reverse_connect = true
reverse_connects reverse_connect_only = true
reverse_connects _ = false

abbrev pub max_rendezvous_endpoints : ℕ
max_rendezvous_endpoints = 8

pub record SnTunnelRendezvous : Type 0 where
  pub seq : Sequence
  pub tunnel_id : TunnelId
  pub to_peer_id : P2pId
  pub operation : SnTunnelRendezvousOperation
  pub end_point_array : List Endpoint
  pub need_predict_endpoint : Bool

pub record SnTunnelRendezvousResp : Type 0 where
  pub seq : Sequence
  pub result : ℕ
  pub predicted_endpoint_array : List Endpoint

abbrev pub result_ok : ℕ
result_ok = 0

abbrev pub result_failed : ℕ
result_failed = 1

abbrev pub resp_success : Sequence → List Endpoint → SnTunnelRendezvousResp
resp_success seq predicted = record {
  seq = seq;
  result = result_ok;
  predicted_endpoint_array = predicted;
}

abbrev pub resp_failure : Sequence → SnTunnelRendezvousResp
resp_failure seq = record { seq = seq; result = result_failed; predicted_endpoint_array = [] }

abbrev pub is_success : SnTunnelRendezvousResp → Bool
is_success r = r.result == result_ok

abbrev is_stream_protocol : Protocol → Bool
is_stream_protocol quic = true
is_stream_protocol tcp = true
is_stream_protocol (ext n) = false

abbrev is_protocol : Option Protocol → Protocol → Bool
is_protocol none p = false
is_protocol (some q) p = q ≟ p

-- `a != b`.
abbrev pub differ : Bool → Bool → Bool
differ true b = not b
differ false b = b

-- `endpoints.first().map(Endpoint::protocol)`.
abbrev pub first_protocol : List Endpoint → Option Protocol
first_protocol [] = none
first_protocol (e ∷ rest) = some e.protocol

module _ (hash : Endpoint → ℕ) where
  -- `HashSet::insert` of the endpoints before finds `e`.
  abbrev pub seen : Endpoint → List Endpoint → Bool
  seen e unique = any (λ f. hash f == hash e && endpoint_eq f e) unique

  -- The loop over the endpoints, with the set of those before.
  unfoldable pub check_endpoints :
      SnTunnelRendezvousOperation
      → Option Protocol
      → List Endpoint
      → List Endpoint
      → P2pResult (Unit {0})
  check_endpoints operation transport unique [] = ok tt
  check_endpoints operation transport unique (e ∷ rest) =
      let checked_rest = check_endpoints operation transport (e ∷ unique) rest in
      if not (is_protocol transport e.protocol)
        || not (is_stream_protocol e.protocol)
        || not (
            if reverse_connects operation
            then rendezvous_reverse_connect_eligible_area e
            else rendezvous_eligible_area e)
        || port e.addr == 0
        || seen e unique
      then err P2pErrorCode.invalid_param
      else checked_rest

  unfoldable pub validate_rendezvous_endpoints :
      List Endpoint → SnTunnelRendezvousOperation → P2pResult (Unit {0})
  validate_rendezvous_endpoints endpoints operation = do
    fail_if (ltb max_rendezvous_endpoints (length endpoints)) P2pErrorCode.out_of_limit
    fail_if (differ (requires_endpoints operation) (not (is_empty endpoints)))
        P2pErrorCode.invalid_param
    let transport = first_protocol endpoints
    fail_if (punches operation && not (is_protocol transport quic)) P2pErrorCode.invalid_param
    check_endpoints operation transport [] endpoints

  unfoldable pub validate_request : SnTunnelRendezvous → P2pResult (Unit {0})
  validate_request r = do
    fail_if (r.seq == 0) P2pErrorCode.invalid_param
    validate_rendezvous_endpoints r.end_point_array r.operation

  unfoldable pub validate_response : SnTunnelRendezvousResp → Sequence → Bool → P2pResult (Unit {0})
  validate_response r expected_seq need_predict_endpoint = do
    fail_if (not (r.seq == expected_seq)) P2pErrorCode.unmatch
    fail_if (not (r.result == result_ok || r.result == result_failed)) P2pErrorCode.invalid_data
    if not (is_success r)
        then fail_if (not (is_empty r.predicted_endpoint_array)) P2pErrorCode.invalid_data
        else (do
          fail_if (differ need_predict_endpoint (not (is_empty r.predicted_endpoint_array)))
              P2pErrorCode.invalid_data
          if need_predict_endpoint
              then validate_rendezvous_endpoints r.predicted_endpoint_array punch_only
              else ok tt)
