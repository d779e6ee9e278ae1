-- ===== src/Rendezvous/Duplicates.antt =====
-- What a repeated rendezvous request gets (Rendezvous/State), whatever is called in between.
use bucky_p2p.Base.{
  ℕ, ◌+◌, ◌≤◌, ◌<◌, ◌≡◌, ◌⊎◌, inl, inr, refl, ap, ◌∙◌, Bool, true, false, some, List, [], ◌∷◌,
  arith, if◌then◌else◌, All, get, get-insert, ok, err, P2pErrorCode, Timestamp, u64_max,
  Option-cases,
}
use bucky_p2p.Identity.{P2pId}
use bucky_p2p.Endpoint.{Endpoint, endpoint_eq}
use bucky_p2p.Rendezvous.Protocol.{SnTunnelRendezvous, SnTunnelRendezvousResp, resp_failure, differ}
use bucky_p2p.Rendezvous.State.{
  RendezvousEntry, RendezvousState, Waiter, key_eq, key_of, cleanup, endpoints_eq, request_eq,
  begin_known, begin_new, begin_clean, begin, cache_live, cache_response, new_entry, new, cached,
  in_flight, max_request_lifetime,
}
use bucky_p2p.Rendezvous.Calls.{Call, run}
use bucky_p2p.Rendezvous.Lives.{Lives, Has, cleanup-get, response_of}
use bucky_p2p.Rendezvous.Spared.{Spares, SparesAnswer, run-Lives, run-Has}

endpoints_eq_refl : (es : List Endpoint) → endpoints_eq es es ≡ true
unfolding endpoints_eq endpoint_eq
endpoints_eq_refl [] = refl
endpoints_eq_refl (e ∷ es) = ground (arith, endpoints_eq_refl es)

differ_refl : (b : Bool) → differ b b ≡ false
differ_refl true = refl
differ_refl false = refl

request_eq_refl : (r : SnTunnelRendezvous) → request_eq r r ≡ true
unfolding request_eq
request_eq_refl r =
    ground (arith, endpoints_eq_refl r.end_point_array, differ_refl r.need_predict_endpoint)

begin_new-Lives :
    (s : RendezvousState) (initiator : P2pId) (request : SnTunnelRendezvous) (now : Timestamp)
    → now + max_request_lifetime ≤ u64_max
    → (begin_new s initiator request now).1 ≡ ok new
    → Lives initiator request (now + max_request_lifetime) (begin_new s initiator request now).0
unfolding begin_new
begin_new-Lives s initiator request now fits h =
    let key = key_of initiator request in
    ground (arith, get-insert key key (new_entry request now) s.entries)

-- A request that was accepted as new is in the table.
begin-Lives_new :
    (s : RendezvousState) (initiator : P2pId) (request : SnTunnelRendezvous) (now : Timestamp)
    (channel : Waiter)
    → now + max_request_lifetime ≤ u64_max
    → (begin s initiator request now channel).1 ≡ ok new
    → Lives initiator request (now + max_request_lifetime) (begin s initiator request now channel).0
unfolding begin begin_clean begin_known
begin-Lives_new s initiator request now channel fits h =
    ground (arith, begin_new-Lives (cleanup s now).0 initiator request now fits)

-- The answer that is kept for later duplicates: a prediction is never given twice.
abbrev pub kept : SnTunnelRendezvous → SnTunnelRendezvousResp → SnTunnelRendezvousResp
kept request response = if request.need_predict_endpoint then resp_failure request.seq else response

-- A repeated request before the deadline: it waits, gets the kept answer, or is one too many.
module _ (initiator : P2pId) (request : SnTunnelRendezvous) (deadline : Timestamp) where
  begin_known-repeated :
      (s : RendezvousState) (e : RendezvousEntry) (channel : Waiter)
      → e.request ≡ request
      → let result = (begin_known s (key_of initiator request) e request channel).1 in
        (result ≡ ok (in_flight channel))
        ⊎ ((r : SnTunnelRendezvousResp) × (e.response ≡ some r) × (result ≡ ok (cached r)))
        ⊎ (result ≡ err P2pErrorCode.out_of_limit)
  unfolding begin_known
  begin_known-repeated s e channel same = elim (Option-cases e.response) [
    | inl q ↦ ground (arith, request_eq_refl request)
    | inr (r, q) ↦ inr (inl (r, q, ground (arith, request_eq_refl request)))
  ]

  begin-found :
      (s : RendezvousState) (now : Timestamp) (channel : Waiter)
      → now < deadline
      → Lives initiator request deadline s
      → (e : RendezvousEntry) × (e.request ≡ request)
        × (response_of (get (key_of initiator request) s.entries) ≡ e.response)
        × ((begin s initiator request now channel).1
            ≡ (begin_known (cleanup s now).0 (key_of initiator request) e request channel).1)
  unfolding begin begin_clean
  begin-found s now channel lt h =
      let same = cleanup-get initiator request deadline s now lt h in
      elim (Option-cases (get (key_of initiator request) s.entries)) [
        | inl g ↦ absurd (ground arith)
        | inr (e, g) ↦ (e, ground arith, ap response_of g, ground arith)
      ]

  begin-cached :
      (s : RendezvousState) (now : Timestamp) (channel : Waiter) (r : SnTunnelRendezvousResp)
      → now < deadline
      → Lives initiator request deadline s
      → Has initiator request deadline r s
      → (begin s initiator request now channel).1 ≡ ok (cached r)
  unfolding begin_known
  begin-cached s now channel r lt h a =
      let (e, same, response, found) = begin-found s now channel lt h in
      ground (arith, found, response, request_eq_refl request)

module _ (hash : Endpoint → ℕ) where
  -- A request that was accepted as new is not run a second time for 30 seconds (if that deadline fits
  -- 64 bits). Whatever is called after it and before the deadline, but for a failure of a request of
  -- its key (initiator, sequence and tunnel id) and the removal of one of its two peers: the same
  -- request before the deadline waits for the answer, gets the answer that is in the table, or is
  -- refused with `out_of_limit`.
  pub begin-begin :
      (s : RendezvousState) (initiator : P2pId) (request : SnTunnelRendezvous)
      (start now : Timestamp) (c d : Waiter) (calls : List (Timestamp × Call))
      → (begin s initiator request start c).1 ≡ ok new
      → start + max_request_lifetime ≤ u64_max
      → All (Spares initiator request (start + max_request_lifetime)) calls
      → now < start + max_request_lifetime
      → let before = (run hash (begin s initiator request start c).0 calls).0 in
        let result = (begin before initiator request now d).1 in
        (result ≡ ok (in_flight d))
        ⊎ ((r : SnTunnelRendezvousResp) × Has initiator request
              (start + max_request_lifetime)
              r
              before
            × (result ≡ ok (cached r)))
        ⊎ (result ≡ err P2pErrorCode.out_of_limit)
  begin-begin s initiator request start now c d calls h fits spared live =
      let deadline = start + max_request_lifetime in
      let before = (run hash (begin s initiator request start c).0 calls).0 in
      let lives =
        run-Lives initiator request deadline hash (begin s initiator request start c).0 calls spared
          (begin-Lives_new s initiator request start c fits h) in
      let (e, same, response, found) =
        begin-found initiator request deadline before now d live lives in
      rw found
        (elim (begin_known-repeated initiator request deadline (cleanup before now).0 e d same) [
          | inl waits ↦ inl waits
          | inr (inl (r, given, q)) ↦ inr (inl (r, response ∙ given, q))
          | inr (inr full) ↦ inr (inr full)
        ])

  cache_live-Has :
      (s : RendezvousState) (initiator : P2pId) (request : SnTunnelRendezvous) (e : RendezvousEntry)
      (response : SnTunnelRendezvousResp) (deadline : Timestamp)
      → (cache_live hash s (key_of initiator request) e request response).1 ≡ ok tt
      → e.request ≡ request
      → e.expires_at ≡ deadline
      → let after = (cache_live hash s (key_of initiator request) e request response).0 in
        Lives initiator request deadline after
        × Has initiator request deadline (kept request response) after
  unfolding cache_live
  cache_live-Has s initiator request e response deadline h same until =
      let key = key_of initiator request in
      ground (
        arith,
        get-insert key key (record e { waiters = []; response = some (kept request response) })
            s.entries,
      )

  cache_response-Has :
      (s : RendezvousState) (initiator : P2pId) (request : SnTunnelRendezvous)
      (response : SnTunnelRendezvousResp) (at deadline : Timestamp)
      → (cache_response hash s initiator request response at).1 ≡ ok tt
      → Lives initiator request deadline s
      → let after = (cache_response hash s initiator request response at).0 in
        Lives initiator request deadline after
        × Has initiator request deadline (kept request response) after
  unfolding cache_response
  cache_response-Has s initiator request response at deadline h lives =
      elim (Option-cases (get (key_of initiator request) s.entries)) [
        | inl g ↦ absurd (ground arith)
        | inr (e, g) ↦ ground (arith, cache_live-Has s initiator request e response deadline)
      ]

  -- An answered request is answered from the table for 30 seconds after it began (if that deadline
  -- fits 64 bits). Before the deadline other calls may come, and neither of its two peers is removed:
  -- between the request and its answer any, duplicates that wait among them, but for a failure of a
  -- request of its key (initiator, sequence and tunnel id); after the answer any, failures among them,
  -- but for one more answer to a request of its key. Then the same request before the deadline gets
  -- the kept answer.
  pub begin-cache_response :
      (s : RendezvousState) (initiator : P2pId) (request : SnTunnelRendezvous)
      (response : SnTunnelRendezvousResp) (start at now : Timestamp) (c d : Waiter)
      (calls later : List (Timestamp × Call))
      → (begin s initiator request start c).1 ≡ ok new
      → start + max_request_lifetime ≤ u64_max
      → All (Spares initiator request (start + max_request_lifetime)) calls
      → (cache_response hash
          (run hash (begin s initiator request start c).0 calls).0
          initiator
          request
          response
          at).1
        ≡ ok tt
      → All (SparesAnswer initiator request (start + max_request_lifetime)) later
      → now < start + max_request_lifetime
      → let waiting = (run hash (begin s initiator request start c).0 calls).0 in
        let answered = (cache_response hash waiting initiator request response at).0 in
        (begin (run hash answered later).0 initiator request now d).1
        ≡ ok (cached (kept request response))
  begin-cache_response s initiator request response start at now c d calls later h fits spared done
        spared' live =
      let deadline = start + max_request_lifetime in
      let waiting = (run hash (begin s initiator request start c).0 calls).0 in
      let answered = (cache_response hash waiting initiator request response at).0 in
      let lives =
        run-Lives initiator request deadline hash (begin s initiator request start c).0 calls spared
          (begin-Lives_new s initiator request start c fits h) in
      let (lives', has) =
        cache_response-Has waiting initiator request response at deadline done lives in
      let (lives'', has') =
        run-Has initiator request deadline hash answered later (kept request response) spared'
          lives' has in
      begin-cached initiator request deadline (run hash answered later).0 now d
        (kept request response) live lives'' has'
