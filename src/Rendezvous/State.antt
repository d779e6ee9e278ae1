-- ===== src/Rendezvous/State.antt =====
-- p2p-frame/src/sn/service/rendezvous_state.rs: the table of live rendezvous requests and the request
-- rates. A waiter is the number of its one-shot channel; an operation gives the new table, its result
-- and the answers that it sends to waiters.
use bucky_p2p.Base.{
  ℕ, Bool, true, false, not, ◌&&◌, ◌||◌, Option, none, some, List, [], ◌∷◌, ◌++◌, map, ltb, leb,
  ◌==◌, Eq, ◌≟◌, if◌then◌else◌, length, is_empty, countp, HashMap, get, insert, remove, ok, err,
  P2pResult, P2pErrorCode, Timestamp, saturating_add, ℕ_discrete,
}
use bucky_p2p.Identity.{P2pId, id_eq, P2pId-discrete}
use bucky_p2p.Types.{Sequence, TunnelId}
use bucky_p2p.Endpoint.{Endpoint, endpoint_eq}
use bucky_p2p.Rendezvous.Protocol.{
  SnTunnelRendezvous, SnTunnelRendezvousResp, operation_eq, resp_failure, validate_response, differ,
}

abbrev pub max_live_attempts : ℕ
max_live_attempts = 256

abbrev pub max_live_attempts_per_pair : ℕ
max_live_attempts_per_pair = 8

abbrev pub max_requests_per_initiator_window : ℕ
max_requests_per_initiator_window = 32

abbrev pub max_inflight_waiters_per_attempt : ℕ
max_inflight_waiters_per_attempt = 8

abbrev pub rate_window : Timestamp
rate_window = 60_000_000

abbrev pub max_request_lifetime : Timestamp
max_request_lifetime = 30_000_000

pub record RendezvousKey : Type 0 where
  pub initiator : P2pId
  pub seq : Sequence
  pub tunnel_id : TunnelId

unfoldable pub RendezvousKey-discrete : Discrete RendezvousKey
RendezvousKey-discrete = hlevel (P2pId-discrete, ℕ_discrete)

instance abbrev pub key_eq : Eq RendezvousKey
key_eq = record { dec = RendezvousKey-discrete }

abbrev pub key_of : P2pId → SnTunnelRendezvous → RendezvousKey
key_of initiator request = record {
  initiator = initiator;
  seq = request.seq;
  tunnel_id = request.tunnel_id;
}

abbrev pub Waiter : Type 0
Waiter = ℕ

abbrev pub Reply : Type 0
Reply = P2pResult SnTunnelRendezvousResp

abbrev pub Sent : Type 0
Sent = List (Waiter × Reply)

pub record RendezvousEntry : Type 0 where
  pub request : SnTunnelRendezvous
  pub expires_at : Timestamp
  pub response : Option SnTunnelRendezvousResp
  pub waiters : List Waiter

pub data RendezvousBegin : Type 0 where
  new : RendezvousBegin
  cached : SnTunnelRendezvousResp → RendezvousBegin
  in_flight : Waiter → RendezvousBegin

pub record RendezvousState : Type 0 where
  pub entries : HashMap RendezvousKey RendezvousEntry
  pub rate_windows : HashMap P2pId (List Timestamp)

abbrev pub empty_state : RendezvousState
empty_state = record { entries = []; rate_windows = [] }

-- The derived `PartialEq` of the request; endpoints compare without their areas.
unfoldable pub endpoints_eq : List Endpoint → List Endpoint → Bool
endpoints_eq [] [] = true
endpoints_eq (a ∷ as') (b ∷ bs) = endpoint_eq a b && endpoints_eq as' bs
endpoints_eq _ _ = false

unfoldable pub request_eq : SnTunnelRendezvous → SnTunnelRendezvous → Bool
request_eq a b =
    a.seq == b.seq
    && a.tunnel_id == b.tunnel_id
    && a.to_peer_id ≟ b.to_peer_id
    && a.operation ≟ b.operation
    && endpoints_eq a.end_point_array b.end_point_array
    && not (differ a.need_predict_endpoint b.need_predict_endpoint)

abbrev pub answer : Reply → List Waiter → Sent
answer reply ws = map (λ w. (w, reply)) ws

-- `HashMap::retain` with a closure that answers the waiters of what it drops.
unfoldable pub retain_entries :
    (RendezvousKey × RendezvousEntry → Bool)
    → Reply
    → HashMap RendezvousKey RendezvousEntry
    → HashMap RendezvousKey RendezvousEntry × Sent
retain_entries live reply [] = ([], [])
retain_entries live reply ((k, e) ∷ rest) =
    let (kept, sent) = retain_entries live reply rest in
    if live (k, e) then ((k, e) ∷ kept, sent) else (kept, answer reply e.waiters ++ sent)

-- `while front + RATE_WINDOW < now { pop_front }`.
unfoldable pub pop_old : Timestamp → List Timestamp → List Timestamp
pop_old now [] = []
pop_old now (t ∷ ts) =
    let rest = pop_old now ts in if ltb (saturating_add t rate_window) now then rest else t ∷ ts

unfoldable pub retain_rates :
    Timestamp → HashMap P2pId (List Timestamp) → HashMap P2pId (List Timestamp)
unfolding pop_old
retain_rates now [] = []
retain_rates now ((id, ts) ∷ rest) =
    let kept = retain_rates now rest in
    let left = pop_old now ts in if is_empty left then kept else (id, left) ∷ kept

abbrev pub is_live : Timestamp → RendezvousKey × RendezvousEntry → Bool
is_live now (k, e) = ltb now e.expires_at

unfoldable pub cleanup : RendezvousState → Timestamp → RendezvousState × Sent
cleanup s now =
    let (entries, sent) = retain_entries (is_live now) (err P2pErrorCode.expired) s.entries in
    (record { entries = entries; rate_windows = retain_rates now s.rate_windows }, sent)

-- The live attempts of one pair of peers.
abbrev pub of_pair : P2pId → P2pId → RendezvousKey × RendezvousEntry → Bool
of_pair initiator to_peer (k, e) = k.initiator ≟ initiator && e.request.to_peer_id ≟ to_peer

-- A request whose key is in the table; `channel` is the channel that is made for it.
unfoldable pub begin_known :
    RendezvousState
    → RendezvousKey
    → RendezvousEntry
    → SnTunnelRendezvous
    → Waiter
    → RendezvousState × P2pResult RendezvousBegin
begin_known s key entry request channel =
    if not (request_eq entry.request request)
    then (s, err P2pErrorCode.conflict)
    else elim entry.response [
      | some response ↦ (s, ok (cached response))
      | none ↦
          if leb max_inflight_waiters_per_attempt (length entry.waiters)
          then (s, err P2pErrorCode.out_of_limit)
          else (
            record s {
              entries =
                  insert key (record entry { waiters = entry.waiters ++ channel ∷ [] }) s.entries;
            },
            ok (in_flight channel),
          )
    ]

abbrev pub timestamps_of : P2pId → HashMap P2pId (List Timestamp) → List Timestamp
timestamps_of id m = elim (get id m) [ none ↦ [] | some ts ↦ ts ]

abbrev pub new_entry : SnTunnelRendezvous → Timestamp → RendezvousEntry
new_entry request now = record {
  request = request;
  expires_at = saturating_add now max_request_lifetime;
  response = none;
  waiters = [];
}

-- A request whose key is not in the table: the limits, then the new entry.
unfoldable pub begin_new :
    RendezvousState
    → P2pId
    → SnTunnelRendezvous
    → Timestamp
    → RendezvousState × P2pResult RendezvousBegin
begin_new s initiator request now =
    if leb max_live_attempts (length s.entries)
      || leb max_live_attempts_per_pair (countp (of_pair initiator request.to_peer_id) s.entries)
    then (s, err P2pErrorCode.out_of_limit)
    else let timestamps = pop_old now (timestamps_of initiator s.rate_windows) in
      if leb max_requests_per_initiator_window (length timestamps)
      then (
        record s { rate_windows = insert initiator timestamps s.rate_windows },
        err P2pErrorCode.out_of_limit,
      )
      else (
        record {
          entries = insert (key_of initiator request) (new_entry request now) s.entries;
          rate_windows = insert initiator (timestamps ++ now ∷ []) s.rate_windows;
        },
        ok new,
      )

-- What `begin` does after the cleanup.
unfoldable pub begin_clean :
    RendezvousState
    → P2pId
    → SnTunnelRendezvous
    → Timestamp
    → Waiter
    → RendezvousState × P2pResult RendezvousBegin
begin_clean s initiator request now channel = elim (get (key_of initiator request) s.entries) [
  | some entry ↦ begin_known s (key_of initiator request) entry request channel
  | none ↦ begin_new s initiator request now
]

unfoldable pub begin :
    RendezvousState
    → P2pId
    → SnTunnelRendezvous
    → Timestamp
    → Waiter
    → RendezvousState × P2pResult RendezvousBegin × Sent
begin s initiator request now channel =
    let (s', sent) = cleanup s now in
    let (s'', result) = begin_clean s' initiator request now channel in (s'', result, sent)

module _ (hash : Endpoint → ℕ) where
  -- The entry is there and has not expired.
  unfoldable pub cache_live :
      RendezvousState
      → RendezvousKey
      → RendezvousEntry
      → SnTunnelRendezvous
      → SnTunnelRendezvousResp
      → RendezvousState × P2pResult (Unit {0}) × Sent
  cache_live s key entry request response =
      if not (request_eq entry.request request)
      then (s, err P2pErrorCode.conflict, [])
      else elim (validate_response hash response request.seq request.need_predict_endpoint) [
        | err e ↦ (s, err e, [])
        | ok _ ↦
            let cached_response =
              if request.need_predict_endpoint then resp_failure request.seq else response in
            (
              record s {
                entries =
                    insert key (record entry { waiters = []; response = some cached_response })
                      s.entries;
              },
              ok tt,
              answer (ok response) entry.waiters,
            )
      ]

  unfoldable pub cache_response :
      RendezvousState
      → P2pId
      → SnTunnelRendezvous
      → SnTunnelRendezvousResp
      → Timestamp
      → RendezvousState × P2pResult (Unit {0}) × Sent
  cache_response s initiator request response now =
      let key = key_of initiator request in
      elim (get key s.entries) [
        | none ↦ (s, err P2pErrorCode.not_found, [])
        | some entry ↦
            if leb entry.expires_at now
            then (
              record s { entries = remove key s.entries },
              err P2pErrorCode.expired,
              answer (err P2pErrorCode.expired) entry.waiters,
            )
            else cache_live s key entry request response
      ]

abbrev is_some {ℓ} : {A : Type ℓ} → Option A → Bool
is_some none = false
is_some (some a) = true

unfoldable pub fail_unanswered :
    RendezvousState → P2pId → SnTunnelRendezvous → RendezvousState × Sent
fail_unanswered s initiator request =
    let key = key_of initiator request in
    elim (get key s.entries) [
      | none ↦ (s, [])
      | some entry ↦
          if not (request_eq entry.request request) || is_some entry.response
          then (record s { entries = insert key entry s.entries }, [])
          else (
            record s { entries = remove key s.entries },
            answer (err P2pErrorCode.network_error) entry.waiters,
          )
    ]

abbrev pub without_peer : P2pId → RendezvousKey × RendezvousEntry → Bool
without_peer peer (k, e) = not (k.initiator ≟ peer) && not (e.request.to_peer_id ≟ peer)

unfoldable pub remove_peer : RendezvousState → P2pId → RendezvousState × Sent
remove_peer s peer =
    let (entries, sent) =
      retain_entries (without_peer peer) (err P2pErrorCode.user_canceled) s.entries in
    (record { entries = entries; rate_windows = remove peer s.rate_windows }, sent)
