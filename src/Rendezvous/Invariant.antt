-- ===== src/Rendezvous/Invariant.antt =====
-- The limits of the table of live requests (Rendezvous/State), over every operation.
use bucky_p2p.Base.{
  ℕ, ◌≤◌, ◌<◌, ◌≡◌, inl, inr, refl, Bool, true, some, List, [], ◌∷◌, ◌++◌, arith, leb, length,
  length-append, countp, All, All-get, All-insert, HashMap, get, insert, countp-insert-le,
  countp-insert-false, Timestamp, Option-cases, Bool-cases, ◌||◌, countp-true,
}
use bucky_p2p.Base.MapTotals.{NodupKeys-insert}
use bucky_p2p.Identity.{P2pId, id_eq}
use bucky_p2p.Rendezvous.Protocol.{SnTunnelRendezvous, SnTunnelRendezvousResp, resp_failure}
use bucky_p2p.Endpoint.{Endpoint}
use bucky_p2p.Rendezvous.State.{
  RendezvousKey, RendezvousEntry, RendezvousState, Waiter, key_eq, key_of, pop_old, cleanup,
  of_pair, begin_known, begin_new, begin_clean, begin, cache_live, cache_response, fail_unanswered,
  new_entry, timestamps_of, empty_state,
}
use bucky_p2p.Rendezvous.Calls.{Call, begins, responds, fails, removes, step, run}
use bucky_p2p.Rendezvous.Limits.{
  empty-Inv, IsEntry, IsRate, Inv, length-pop_old-le, cleanup-Inv, remove_peer-Inv, remove-Inv,
  update-Inv,
}

begin_known-Inv :
    (s : RendezvousState) (k : RendezvousKey) (e : RendezvousEntry) (request : SnTunnelRendezvous)
    (channel : Waiter)
    → Inv s
    → get k s.entries ≡ some e
    → Inv (begin_known s k e request channel).0
unfolding begin_known
begin_known-Inv s k e request channel v g =
    let old = All-get IsEntry k e s.entries v.entries_ok g in
    let longer = length-append e.waiters (channel ∷ []) in
    let written = update-Inv s k e (record e { waiters = e.waiters ++ channel ∷ [] }) v g refl in
    ground (arith, old, longer, written)

-- One more request of a pair below its limit.
pair-insert :
    (m : HashMap RendezvousKey RendezvousEntry) (initiator a b : P2pId)
    (request : SnTunnelRendezvous) (now : Timestamp)
    → countp (of_pair initiator request.to_peer_id) m < 8
    → countp (of_pair a b) m ≤ 8
    → countp (of_pair a b) (insert (key_of initiator request) (new_entry request now) m) ≤ 8
pair-insert m initiator a b request now h k = ground (
  arith,
  countp-insert-le (of_pair a b) (key_of initiator request) (new_entry request now) m,
  countp-insert-false (of_pair a b) (key_of initiator request) (new_entry request now) m,
)

timestamps_of-le :
    (id : P2pId) (m : HashMap P2pId (List Timestamp))
    → All IsRate m
    → length (timestamps_of id m) ≤ 32
timestamps_of-le id m h = elim (Option-cases (get id m)) [
  | inl e ↦ rw (e, length) (omega arith)
  | inr (ts, e) ↦ rw (e, length) (All-get IsRate id ts m h e)
]

begin_new-Inv :
    (s : RendezvousState) (initiator : P2pId) (request : SnTunnelRendezvous) (now : Timestamp)
    → Inv s
    → Inv (begin_new s initiator request now).0
unfolding begin_new
begin_new-Inv s initiator request now v = elim (Bool-cases refused) [
  | inl e ↦ rw e v
  | inr e ↦ rw e (elim (Bool-cases (leb 32 (length timestamps))) [
    | inl full ↦ rw full (record {
      unique = v.unique;
      live_bound = v.live_bound;
      pair_bound = v.pair_bound;
      entries_ok = v.entries_ok;
      rates_ok =
          All-insert IsRate initiator timestamps s.rate_windows (omega (arith, short)) v.rates_ok;
    })
    | inr room ↦ rw room (record {
      unique = NodupKeys-insert key entry s.entries v.unique;
      live_bound = ground (
        arith,
        countp-true s.entries,
        countp-true (insert key entry s.entries),
        countp-insert-le (λ x. true) key entry s.entries,
      );
      pair_bound =
          λ a b. pair-insert s.entries initiator a b request now (ground arith) (v.pair_bound a b);
      entries_ok = All-insert IsEntry key entry s.entries (omega arith, inl refl) v.entries_ok;
      rates_ok =
          All-insert IsRate initiator (timestamps ++ now ∷ []) s.rate_windows
            (ground (arith, length-append timestamps (now ∷ []))) v.rates_ok;
    })
  ])
]
  where
    key : RendezvousKey
    key = key_of initiator request

    entry : RendezvousEntry
    entry = new_entry request now

    refused : Bool
    refused =
        leb 256 (length s.entries)
        || leb 8 (countp (of_pair initiator request.to_peer_id) s.entries)

    timestamps : List Timestamp
    timestamps = pop_old now (timestamps_of initiator s.rate_windows)

    short : length timestamps ≤ 32
    short = omega (
      arith,
      length-pop_old-le now (timestamps_of initiator s.rate_windows),
      timestamps_of-le initiator s.rate_windows v.rates_ok,
    )

begin_clean-Inv :
    (s : RendezvousState) (initiator : P2pId) (request : SnTunnelRendezvous) (now : Timestamp)
    (channel : Waiter)
    → Inv s
    → Inv (begin_clean s initiator request now channel).0
unfolding begin_clean
begin_clean-Inv s initiator request now channel v =
    elim (Option-cases (get (key_of initiator request) s.entries)) [
      | inl e ↦ rw (e, begin_clean) (begin_new-Inv s initiator request now v)
      | inr (entry, e) ↦ rw (e, begin_clean) (begin_known-Inv s _ entry request channel v e)
    ]

begin-Inv :
    (s : RendezvousState) (initiator : P2pId) (request : SnTunnelRendezvous) (now : Timestamp)
    (channel : Waiter)
    → Inv s
    → Inv (begin s initiator request now channel).0
unfolding begin
begin-Inv s initiator request now channel v =
    begin_clean-Inv (cleanup s now).0 initiator request now channel (cleanup-Inv s now v)

module _ (hash : Endpoint → ℕ) where
  cache_live-Inv :
      (s : RendezvousState) (k : RendezvousKey) (e : RendezvousEntry) (request : SnTunnelRendezvous)
      (response : SnTunnelRendezvousResp)
      → Inv s
      → get k s.entries ≡ some e
      → Inv (cache_live hash s k e request response).0
  unfolding cache_live
  cache_live-Inv s k e request response v g =
      let written = λ (r : SnTunnelRendezvousResp).
        update-Inv s k e (record e { waiters = []; response = some r }) v g refl
          (omega arith, inr refl) in
      ground (arith, written response, written (resp_failure request.seq))

  cache_response-Inv :
      (s : RendezvousState) (initiator : P2pId) (request : SnTunnelRendezvous)
      (response : SnTunnelRendezvousResp) (now : Timestamp)
      → Inv s
      → Inv (cache_response hash s initiator request response now).0
  unfolding cache_response
  cache_response-Inv s initiator request response now v =
      elim (Option-cases (get (key_of initiator request) s.entries)) [
        | inl e ↦ rw (e, cache_response) v
        | inr (entry, e) ↦
            rw (e, cache_response)
              (elim (Bool-cases (leb entry.expires_at now)) [
                | inl late ↦ rw late (remove-Inv s _ v)
                | inr live ↦ rw live (cache_live-Inv s _ entry request response v e)
              ])
      ]

fail_unanswered-Inv :
    (s : RendezvousState) (initiator : P2pId) (request : SnTunnelRendezvous)
    → Inv s
    → Inv (fail_unanswered s initiator request).0
unfolding fail_unanswered
fail_unanswered-Inv s initiator request v =
    elim (Option-cases (get (key_of initiator request) s.entries)) [
      | inl e ↦ rw (e, fail_unanswered) v
      | inr (entry, e) ↦
          let old = All-get IsEntry _ entry s.entries v.entries_ok e in
          rw (e, fail_unanswered)
            (ground (
              arith,
              remove-Inv s (key_of initiator request) v,
              update-Inv s (key_of initiator request) entry entry v e refl old,
            ))
    ]

pub step-Inv :
    (hash : Endpoint → ℕ) (s : RendezvousState) (c : Timestamp × Call)
    → Inv s
    → Inv (step hash s c).0
unfolding step
step-Inv hash s (now, begins initiator request channel) v =
    begin-Inv s initiator request now channel v
step-Inv hash s (now, responds initiator request response) v =
    cache_response-Inv hash s initiator request response now v
step-Inv hash s (now, fails initiator request) v = fail_unanswered-Inv s initiator request v
step-Inv hash s (now, removes peer) v = remove_peer-Inv s peer v

run_from-Inv :
    (hash : Endpoint → ℕ) (s : RendezvousState) (cs : List (Timestamp × Call))
    → Inv s
    → Inv (run hash s cs).0
unfolding run
run_from-Inv hash s [] v = v
run_from-Inv hash s (c ∷ cs) v = run_from-Inv hash (step hash s c).0 cs (step-Inv hash s c v)

-- After any calls at any times, from the empty table on: the live requests have distinct keys and
-- are at most 256, at most 8 of them are of one initiator and one target, each has at most 8 waiting
-- duplicates and none once it is answered, and at most 32 request times are recorded for one
-- initiator.
pub run-Inv : (hash : Endpoint → ℕ) (cs : List (Timestamp × Call)) → Inv (run hash empty_state cs).0
run-Inv hash cs = run_from-Inv hash empty_state cs empty-Inv
