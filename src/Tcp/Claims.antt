-- ===== src/Tcp/Claims.antt =====
-- p2p-frame/src/networks/tcp/tunnel.rs and protocol.rs: how an end answers the claim of a data
-- connection by the other end. The frames that may wait for a lease are not part of this model.
use bucky_p2p.Base.{
  ℕ, ◌+◌, ◌%◌, ◌^◌, Bool, false, not, ◌&&◌, Option, none, some, List, ltb, ◌==◌, ◌≟◌, Eq,
  ℕ_discrete, if◌then◌else◌, ok, err, P2pResult, P2pErrorCode,
}
use bucky_p2p.Identity.{P2pId, bytes_lt}
use bucky_p2p.Tcp.{TcpConnId, TcpChannelId, TcpLeaseSeq}

pub data TcpChannelKind : Type 0 where
  stream datagram : TcpChannelKind

instance abbrev pub kind_eq : Eq TcpChannelKind
kind_eq = record { dec = hlevel }

-- The bytes of a `TunnelPurpose`.
abbrev pub TunnelPurpose : Type 0
TunnelPurpose = List ℕ

instance abbrev pub purpose_eq : Eq TunnelPurpose
purpose_eq = record { dec = hlevel ℕ_discrete }

pub data ClaimConnAckResult : Type 0 where
  success vport_not_found listener_closed not_idle lease_mismatch : ClaimConnAckResult
  conflict_lost retired protocol_error accept_queue_full : ClaimConnAckResult

abbrev pub to_u8 : ClaimConnAckResult → ℕ
to_u8 success = 0
to_u8 vport_not_found = 1
to_u8 listener_closed = 2
to_u8 not_idle = 3
to_u8 lease_mismatch = 4
to_u8 conflict_lost = 5
to_u8 ClaimConnAckResult.retired = 6
to_u8 protocol_error = 7
to_u8 accept_queue_full = 8

unfoldable pub try_from_u8 : ℕ → Option ClaimConnAckResult
try_from_u8 n =
    if n == 0
    then some success
    else if n == 1
    then some vport_not_found
    else if n == 2
    then some listener_closed
    else if n == 3
    then some not_idle
    else if n == 4
    then some lease_mismatch
    else if n == 5
    then some conflict_lost
    else if n == 6
    then some ClaimConnAckResult.retired
    else if n == 7
    then some protocol_error
    else if n == 8
    then some accept_queue_full
    else none

pub record ClaimConnReq : Type 0 where
  pub channel_id : TcpChannelId
  pub kind : TcpChannelKind
  pub purpose : TunnelPurpose
  pub conn_id : TcpConnId
  pub lease_seq : TcpLeaseSeq
  pub claim_nonce : ℕ

pub record ClaimConnAck : Type 0 where
  pub channel_id : TcpChannelId
  pub conn_id : TcpConnId
  pub lease_seq : TcpLeaseSeq
  pub result : ℕ

pub data RecentClaimResponse : Type 0 where
  ack : RecentClaimResponse
  refused : ClaimConnAckResult → RecentClaimResponse

pub record RecentClaimRecord : Type 0 where
  pub channel_id : TcpChannelId
  pub lease_seq : TcpLeaseSeq
  pub claim_nonce : ℕ
  pub kind : TcpChannelKind
  pub purpose : TunnelPurpose
  pub response : RecentClaimResponse

pub record ClaimingState : Type 0 where
  pub lease_seq : TcpLeaseSeq
  pub channel_id : TcpChannelId
  pub claim_nonce : ℕ
  pub kind : TcpChannelKind
  pub purpose : TunnelPurpose

-- `bound` and `draining` name the channel of their lease.
pub data DataConnEntryState : Type 0 where
  first_claim_pending idle retired : DataConnEntryState
  claiming : ClaimingState → DataConnEntryState
  bound draining : TcpChannelId → DataConnEntryState

pub record DataConnEntry : Type 0 where
  pub first_claim_local : Bool
  pub has_stream : Bool
  pub committed_lease_seq : TcpLeaseSeq
  pub state : DataConnEntryState
  pub recent_claim : Option RecentClaimRecord

abbrev pub validate_remote_first_claim : Bool → TcpLeaseSeq → Option ClaimConnAckResult
validate_remote_first_claim first_claim_local seq =
    if not (seq == 1)
    then some lease_mismatch
    else if first_claim_local
    then some protocol_error
    else none

unfoldable pub local_simultaneous_claim_wins : P2pId → P2pId → ℕ → ℕ → Bool
unfolding bytes_lt
local_simultaneous_claim_wins local_id remote_id local_nonce remote_nonce =
    if local_nonce == remote_nonce
    then bytes_lt remote_id.bytes local_id.bytes
    else ltb remote_nonce local_nonce

abbrev pub next_lease_seq : TcpLeaseSeq → TcpLeaseSeq
next_lease_seq current = let next = (current + 1) % 2 ^ 32 in if next == 0 then 1 else next

unfoldable pub claim_record_matches : ClaimConnReq → RecentClaimRecord → Bool
claim_record_matches req r =
    req.channel_id == r.channel_id
    && req.lease_seq == r.lease_seq
    && req.claim_nonce == r.claim_nonce
    && req.kind ≟ r.kind
    && req.purpose ≟ r.purpose

abbrev pub response_code : RecentClaimResponse → ℕ
response_code ack = to_u8 success
response_code (refused result) = to_u8 result

abbrev pub claim_response_cmd : ClaimConnReq → RecentClaimResponse → ClaimConnAck
claim_response_cmd req response = record {
  channel_id = req.channel_id;
  conn_id = req.conn_id;
  lease_seq = req.lease_seq;
  result = response_code response;
}

pub data ClaimDecision : Type 0 where
  replay : RecentClaimResponse → ClaimDecision
  accept : ClaimDecision
  refuse : ClaimConnAckResult → ClaimDecision
  conflict_win : ClaimDecision
  conflict_lose : TcpChannelId → ClaimDecision

-- A decision that holds only if the target of the claim is accepted.
abbrev pub check_then : Option ClaimConnAckResult → ClaimDecision → ClaimDecision
check_then none d = d
check_then (some reason) d = refuse reason

abbrev pub first_claim : Option ClaimConnAckResult → Option ClaimConnAckResult → ClaimDecision
first_claim none target = check_then target accept
first_claim (some result) target = refuse result

-- The decision by the state of the connection; `target` is the answer of `check_accept_target`.
unfoldable pub decide_by_state :
    P2pId → P2pId → DataConnEntry → ClaimConnReq → Option ClaimConnAckResult → ClaimDecision
unfolding local_simultaneous_claim_wins
decide_by_state local_id remote_id e req target = elim e.state [
  | DataConnEntryState.retired ↦ refuse ClaimConnAckResult.retired
  | first_claim_pending ↦
      first_claim (validate_remote_first_claim e.first_claim_local req.lease_seq) target
  | idle ↦
      if not (req.lease_seq == next_lease_seq e.committed_lease_seq)
      then refuse lease_mismatch
      else check_then target accept
  | claiming c ↦
      if not (req.lease_seq == c.lease_seq)
      then refuse lease_mismatch
      else if local_simultaneous_claim_wins local_id remote_id c.claim_nonce req.claim_nonce
      then check_then target conflict_win
      else check_then target (conflict_lose c.channel_id)
  | bound channel ↦ refuse not_idle
  | draining channel ↦ refuse not_idle
]

unfoldable pub decide_by_record :
    Option RecentClaimRecord → ClaimConnReq → ClaimDecision → ClaimDecision
unfolding claim_record_matches
decide_by_record none req d = d
decide_by_record (some r) req d =
    if r.lease_seq == req.lease_seq
    then (if claim_record_matches req r then replay r.response else refuse protocol_error)
    else d

abbrev pub record_of : ClaimConnReq → RecentClaimResponse → RecentClaimRecord
record_of req response = record {
  channel_id = req.channel_id;
  lease_seq = req.lease_seq;
  claim_nonce = req.claim_nonce;
  kind = req.kind;
  purpose = req.purpose;
  response = response;
}

-- The answer, the channel that is accepted and the own channel whose claim lost.
pub record ClaimReqProcessing : Type 0 where
  pub response : ClaimConnAck
  pub accepted : Option TcpChannelId
  pub local_conflict_channel : Option TcpChannelId

abbrev pub answered :
    DataConnEntry
    → ClaimConnReq
    → RecentClaimResponse
    → Option TcpChannelId
    → DataConnEntry × P2pResult ClaimReqProcessing
answered e req response conflict = (
  record e { recent_claim = some (record_of req response) },
  ok (record {
    response = claim_response_cmd req response;
    accepted = none;
    local_conflict_channel = conflict;
  }),
)

-- `slot` is the answer of `reserve_accept_slot`; without its stream the connection cannot be bound.
abbrev pub bind_claimed :
    DataConnEntry
    → ClaimConnReq
    → Option ClaimConnAckResult
    → Option TcpChannelId
    → DataConnEntry × P2pResult ClaimReqProcessing
bind_claimed e req (some reason) conflict = answered e req (refused reason) conflict
bind_claimed e req none conflict = if not e.has_stream then (e, err P2pErrorCode.error_state) else (
  record e {
    has_stream = false;
    committed_lease_seq = req.lease_seq;
    state = bound req.channel_id;
    recent_claim = some (record_of req ack);
  },
  ok (record {
    response = claim_response_cmd req ack;
    accepted = some req.channel_id;
    local_conflict_channel = conflict;
  }),
)

abbrev pub carry_out :
    DataConnEntry
    → ClaimConnReq
    → Option ClaimConnAckResult
    → ClaimDecision
    → DataConnEntry × P2pResult ClaimReqProcessing
carry_out e req slot (replay response) = (
  e,
  ok (record {
    response = claim_response_cmd req response;
    accepted = none;
    local_conflict_channel = none;
  }),
)
carry_out e req slot (refuse result) = answered e req (refused result) none
carry_out e req slot conflict_win = answered e req (refused conflict_lost) none
carry_out e req slot (conflict_lose channel) = bind_claimed e req slot (some channel)
carry_out e req slot accept = bind_claimed e req slot none

unfoldable pub process_claim_req :
    P2pId
    → P2pId
    → DataConnEntry
    → ClaimConnReq
    → Option ClaimConnAckResult
    → Option ClaimConnAckResult
    → DataConnEntry × P2pResult ClaimReqProcessing
unfolding decide_by_state decide_by_record
process_claim_req local_id remote_id e req target slot =
    carry_out e req slot
      (decide_by_record e.recent_claim req (decide_by_state local_id remote_id e req target))

-- A claim of a connection that may be unknown.
unfoldable process_claim :
    P2pId
    → P2pId
    → Option DataConnEntry
    → ClaimConnReq
    → Option ClaimConnAckResult
    → Option ClaimConnAckResult
    → Option DataConnEntry × P2pResult ClaimReqProcessing
unfolding process_claim_req
process_claim local_id remote_id none req target slot = (
  none,
  ok (record {
    response = claim_response_cmd req (refused protocol_error);
    accepted = none;
    local_conflict_channel = none;
  }),
)
process_claim local_id remote_id (some e) req target slot =
    let (e2, r) = process_claim_req local_id remote_id e req target slot in (some e2, r)
