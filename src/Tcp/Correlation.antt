-- ===== src/Tcp/Correlation.antt =====
-- p2p-frame/src/networks/tcp/tunnel.rs: how a reverse open joins the connection that arrives with the
-- response that names it.
use bucky_p2p.Base.{
  Bool, true, false, not, ◌||◌, Option, none, some, List, [], ◌∷◌, ◌==◌, if◌then◌else◌,
}
use bucky_p2p.Tcp.{TcpConnId}

pub data ReverseOpenCorrelationEvent : Type 0 where
  arrival arrival_registered success_response : TcpConnId → ReverseOpenCorrelationEvent
  failure terminal_cleanup : ReverseOpenCorrelationEvent

pub data ReverseOpenCorrelationError : Type 0 where
  duplicate_arrival conn_id_mismatch arrival_not_staged terminal : ReverseOpenCorrelationError

pub data ReverseOpenCorrelationOutcome : Type 0 where
  wait : ReverseOpenCorrelationOutcome
  complete : TcpConnId → ReverseOpenCorrelationOutcome
  idempotent terminal : ReverseOpenCorrelationOutcome
  reject : ReverseOpenCorrelationError → ReverseOpenCorrelationOutcome

pub record ReverseOpenCorrelation : Type 0 where
  pub arrival_conn_id : Option TcpConnId
  pub response_conn_id : Option TcpConnId
  pub is_arrival_registered : Bool
  pub is_terminal : Bool
  pub completed_conn_id : Option TcpConnId

abbrev pub new_correlation : ReverseOpenCorrelation
new_correlation = record {
  arrival_conn_id = none;
  response_conn_id = none;
  is_arrival_registered = false;
  is_terminal = false;
  completed_conn_id = none;
}

-- The option is `some` of this number, or of another.
abbrev pub holds : Option TcpConnId → TcpConnId → Bool
holds none c = false
holds (some r) c = r == c

abbrev pub holds_other : Option TcpConnId → TcpConnId → Bool
holds_other none c = false
holds_other (some r) c = not (r == c)

abbrev pub is_given : Option TcpConnId → Bool
is_given none = false
is_given (some r) = true

abbrev pub rejected :
    ReverseOpenCorrelation
    → ReverseOpenCorrelationError
    → ReverseOpenCorrelation × ReverseOpenCorrelationOutcome
rejected s e = (record s { is_terminal = true }, reject e)

abbrev pub completed :
    ReverseOpenCorrelation → TcpConnId → ReverseOpenCorrelation × ReverseOpenCorrelationOutcome
completed s c = (record s { is_terminal = true; completed_conn_id = some c }, complete c)

abbrev pub apply_arrival :
    ReverseOpenCorrelation → TcpConnId → ReverseOpenCorrelation × ReverseOpenCorrelationOutcome
apply_arrival s c =
    if holds s.arrival_conn_id c
    then rejected s ReverseOpenCorrelationError.duplicate_arrival
    else if holds_other s.arrival_conn_id c || holds_other s.response_conn_id c
    then rejected s ReverseOpenCorrelationError.conn_id_mismatch
    else (record s { arrival_conn_id = some c }, wait)

abbrev pub apply_arrival_registered :
    ReverseOpenCorrelation → TcpConnId → ReverseOpenCorrelation × ReverseOpenCorrelationOutcome
apply_arrival_registered s c =
    if not (holds s.arrival_conn_id c)
    then rejected s (
        if is_given s.arrival_conn_id
        then ReverseOpenCorrelationError.conn_id_mismatch
        else ReverseOpenCorrelationError.arrival_not_staged)
    else if s.is_arrival_registered
    then (s, idempotent)
    else if holds s.response_conn_id c
    then completed (record s { is_arrival_registered = true }) c
    else (record s { is_arrival_registered = true }, wait)

abbrev pub apply_success_response :
    ReverseOpenCorrelation → TcpConnId → ReverseOpenCorrelation × ReverseOpenCorrelationOutcome
apply_success_response s c =
    if is_given s.response_conn_id
    then (if holds_other s.response_conn_id c
        then rejected s ReverseOpenCorrelationError.conn_id_mismatch
        else if s.is_arrival_registered
        then completed s c
        else (s, idempotent))
    else if holds_other s.arrival_conn_id c
    then rejected s ReverseOpenCorrelationError.conn_id_mismatch
    else if s.is_arrival_registered
    then completed (record s { response_conn_id = some c }) c
    else (record s { response_conn_id = some c }, wait)

-- Once terminal, only the response that completed it is answered otherwise than with an error.
abbrev pub apply_terminal :
    ReverseOpenCorrelation → ReverseOpenCorrelationEvent → ReverseOpenCorrelationOutcome
apply_terminal s (success_response c) =
    if holds s.completed_conn_id c
    then idempotent
    else if is_given s.completed_conn_id
    then reject ReverseOpenCorrelationError.conn_id_mismatch
    else reject ReverseOpenCorrelationError.terminal
apply_terminal s (arrival c) = reject ReverseOpenCorrelationError.terminal
apply_terminal s (arrival_registered c) = reject ReverseOpenCorrelationError.terminal
apply_terminal s failure = reject ReverseOpenCorrelationError.terminal
apply_terminal s terminal_cleanup = reject ReverseOpenCorrelationError.terminal

abbrev pub apply_live :
    ReverseOpenCorrelation
    → ReverseOpenCorrelationEvent
    → ReverseOpenCorrelation × ReverseOpenCorrelationOutcome
apply_live s (arrival c) = apply_arrival s c
apply_live s (arrival_registered c) = apply_arrival_registered s c
apply_live s (success_response c) = apply_success_response s c
apply_live s failure = (record s { is_terminal = true }, ReverseOpenCorrelationOutcome.terminal)
apply_live s terminal_cleanup =
    (record s { is_terminal = true }, ReverseOpenCorrelationOutcome.terminal)

-- `apply`.
unfoldable pub apply_event :
    ReverseOpenCorrelation
    → ReverseOpenCorrelationEvent
    → ReverseOpenCorrelation × ReverseOpenCorrelationOutcome
apply_event s e = if s.is_terminal then (s, apply_terminal s e) else apply_live s e

unfoldable pub apply_all :
    ReverseOpenCorrelation
    → List ReverseOpenCorrelationEvent
    → ReverseOpenCorrelation × List ReverseOpenCorrelationOutcome
unfolding apply_event
apply_all s [] = (s, [])
apply_all s (e ∷ es) =
    let (s2, o) = apply_event s e in let (s3, os) = apply_all s2 es in (s3, o ∷ os)
