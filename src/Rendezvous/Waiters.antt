-- ===== src/Rendezvous/Waiters.antt =====
-- Every duplicate request that waits is answered exactly once (Rendezvous/State).
use bucky_p2p.Base.{
  ℕ, suc, ◌+◌, ◌≡◌, inl, inr, refl, Bool, none, some, List, [], ◌∷◌, ◌++◌, arith, ◌==◌,
  if◌then◌else◌, countp, countp-append, HashMap, get, insert, remove, ok, err, Timestamp,
  Option-cases, P2pErrorCode,
}
use bucky_p2p.Base.MapTotals.{NodupKeys, total, total-remove-none, total-remove_found}
use bucky_p2p.Identity.{P2pId}
use bucky_p2p.Endpoint.{Endpoint}
use bucky_p2p.Rendezvous.Protocol.{SnTunnelRendezvous, SnTunnelRendezvousResp, resp_failure}
use bucky_p2p.Rendezvous.State.{
  RendezvousKey, RendezvousEntry, RendezvousState, Reply, Sent, Waiter, key_eq, key_of, answer,
  retain_entries, cleanup, begin_known, begin_new, begin_clean, begin, cache_live, cache_response,
  fail_unanswered, remove_peer, without_peer, is_live, new_entry, empty_state,
}
use bucky_p2p.Rendezvous.Calls.{Call, begins, responds, fails, removes, joined, step, run}
use bucky_p2p.Rendezvous.Limits.{Inv, cleanup-Inv, empty-Inv}
use bucky_p2p.Rendezvous.Invariant.{step-Inv}

abbrev pub times : Waiter → List Waiter → ℕ
times w ws = countp (λ v. v == w) ws

abbrev weight : Waiter → RendezvousKey × RendezvousEntry → ℕ
weight w (k, e) = times w e.waiters

-- How often a channel waits in the table, and how often it is answered.
abbrev pub waiting : Waiter → RendezvousState → ℕ
waiting w s = total (weight w) s.entries

abbrev pub answered : Waiter → Sent → ℕ
answered w [] = 0
answered w ((v, r) ∷ sent) = let rest = answered w sent in if v == w then suc rest else rest

answered-answer :
    (w : Waiter) (r : Reply) (ws : List Waiter) → answered w (answer r ws) ≡ times w ws
answered-answer w r [] = refl
answered-answer w r (v ∷ ws) = ground (arith, answered-answer w r ws)

answered-append :
    (w : Waiter) (xs ys : Sent) → answered w (xs ++ ys) ≡ answered w xs + answered w ys
answered-append w [] ys = omega arith
answered-append w ((v, r) ∷ xs) ys = ground (arith, answered-append w xs ys)

retain_entries-waiting :
    (w : Waiter) (live : RendezvousKey × RendezvousEntry → Bool) (r : Reply)
    (m : HashMap RendezvousKey RendezvousEntry)
    → let (kept, sent) = retain_entries live r m in
      total (weight w) m ≡ total (weight w) kept + answered w sent
unfolding retain_entries
retain_entries-waiting w live r [] = refl
retain_entries-waiting w live r ((k, e) ∷ m) = ground (
  arith,
  retain_entries-waiting w live r m,
  answered-append w (answer r e.waiters) (retain_entries live r m).1,
  answered-answer w r e.waiters,
)

cleanup-waiting :
    (w : Waiter) (s : RendezvousState) (now : Timestamp)
    → let (s', sent) = cleanup s now in waiting w s ≡ waiting w s' + answered w sent
unfolding cleanup
cleanup-waiting w s now =
    retain_entries-waiting w (is_live now) (err P2pErrorCode.expired) s.entries

-- Dropping or answering the entry of a key, and writing it again.
remove-waiting :
    (w : Waiter) (s : RendezvousState) (k : RendezvousKey) (e : RendezvousEntry)
    → NodupKeys s.entries
    → get k s.entries ≡ some e
    → waiting w s ≡ times w e.waiters + total (weight w) (remove k s.entries)
remove-waiting w s k e n g = total-remove_found (weight w) k e s.entries n g

insert-waiting :
    (w : Waiter) (s : RendezvousState) (k : RendezvousKey) (e f : RendezvousEntry)
    → NodupKeys s.entries
    → get k s.entries ≡ some e
    → waiting w s + times w f.waiters ≡ times w e.waiters + total (weight w) (insert k f s.entries)
unfolding insert
insert-waiting w s k e f n g = omega (arith, remove-waiting w s k e n g)

insert_new-waiting :
    (w : Waiter) (s : RendezvousState) (k : RendezvousKey) (f : RendezvousEntry)
    → get k s.entries ≡ none
    → total (weight w) (insert k f s.entries) ≡ times w f.waiters + waiting w s
unfolding insert
insert_new-waiting w s k f g = omega (arith, total-remove-none (weight w) k s.entries g)

begin_new-waiting :
    (w : Waiter) (s : RendezvousState) (initiator : P2pId) (request : SnTunnelRendezvous)
    (now : Timestamp)
    → get (key_of initiator request) s.entries ≡ none
    → let (s', result) = begin_new s initiator request now in
      waiting w s + times w (joined result) ≡ waiting w s'
unfolding begin_new
begin_new-waiting w s initiator request now e =
    ground (arith, insert_new-waiting w s (key_of initiator request) (new_entry request now) e)

begin_known-waiting :
    (w : Waiter) (s : RendezvousState) (k : RendezvousKey) (entry : RendezvousEntry)
    (request : SnTunnelRendezvous) (channel : Waiter)
    → NodupKeys s.entries
    → get k s.entries ≡ some entry
    → let (s', result) = begin_known s k entry request channel in
      waiting w s + times w (joined result) ≡ waiting w s'
unfolding begin_known
begin_known-waiting w s k entry request channel n e =
    let longer : RendezvousEntry = record entry { waiters = entry.waiters ++ channel ∷ [] } in
    ground (
      arith,
      insert-waiting w s k entry longer n e,
      countp-append (λ v. v == w) entry.waiters (channel ∷ []),
    )

begin_clean-waiting :
    (w : Waiter) (s : RendezvousState) (initiator : P2pId) (request : SnTunnelRendezvous)
    (now : Timestamp) (channel : Waiter)
    → Inv s
    → let (s', result) = begin_clean s initiator request now channel in
      waiting w s + times w (joined result) ≡ waiting w s'
unfolding begin_clean
begin_clean-waiting w s initiator request now channel v =
    elim (Option-cases (get (key_of initiator request) s.entries)) [
      | inl e ↦ ground (arith, e, begin_new-waiting w s initiator request now e)
      | inr (entry, e) ↦ ground (
        arith,
        e,
        begin_known-waiting w s (key_of initiator request) entry request channel v.unique e,
      )
    ]

begin-waiting :
    (w : Waiter) (s : RendezvousState) (initiator : P2pId) (request : SnTunnelRendezvous)
    (now : Timestamp) (channel : Waiter)
    → Inv s
    → let (s', result, sent) = begin s initiator request now channel in
      waiting w s + times w (joined result) ≡ waiting w s' + answered w sent
unfolding begin
begin-waiting w s initiator request now channel v = omega (
  arith,
  begin_clean-waiting w (cleanup s now).0 initiator request now channel (cleanup-Inv s now v),
  cleanup-waiting w s now,
)

module _ (hash : Endpoint → ℕ) where
  cache_live-waiting :
      (w : Waiter) (s : RendezvousState) (k : RendezvousKey) (e : RendezvousEntry)
      (request : SnTunnelRendezvous) (response : SnTunnelRendezvousResp)
      → NodupKeys s.entries
      → get k s.entries ≡ some e
      → let (s', result, sent) = cache_live hash s k e request response in
        waiting w s ≡ waiting w s' + answered w sent
  unfolding cache_live
  cache_live-waiting w s k e request response n g =
      let cached_response =
        if request.need_predict_endpoint then resp_failure request.seq else response in
      ground (
        arith,
        insert-waiting w s k e (record e { waiters = []; response = some cached_response }) n g,
        answered-answer w (ok response) e.waiters,
      )

  cache_response-waiting :
      (w : Waiter) (s : RendezvousState) (initiator : P2pId) (request : SnTunnelRendezvous)
      (response : SnTunnelRendezvousResp) (now : Timestamp)
      → NodupKeys s.entries
      → let (s', result, sent) = cache_response hash s initiator request response now in
        waiting w s ≡ waiting w s' + answered w sent
  unfolding cache_response
  cache_response-waiting w s initiator request response now n =
      elim (Option-cases (get (key_of initiator request) s.entries)) [
        | inl e ↦ ground (arith, e)
        | inr (entry, e) ↦ ground (
          arith,
          e,
          remove-waiting w s (key_of initiator request) entry n e,
          answered-answer w (err P2pErrorCode.expired) entry.waiters,
          cache_live-waiting w s (key_of initiator request) entry request response n e,
        )
      ]

fail_unanswered-waiting :
    (w : Waiter) (s : RendezvousState) (initiator : P2pId) (request : SnTunnelRendezvous)
    → NodupKeys s.entries
    → let (s', sent) = fail_unanswered s initiator request in
      waiting w s ≡ waiting w s' + answered w sent
unfolding fail_unanswered
fail_unanswered-waiting w s initiator request n =
    elim (Option-cases (get (key_of initiator request) s.entries)) [
      | inl e ↦ ground (arith, e)
      | inr (entry, e) ↦ ground (
        arith,
        e,
        remove-waiting w s (key_of initiator request) entry n e,
        insert-waiting w s (key_of initiator request) entry entry n e,
        answered-answer w (err P2pErrorCode.network_error) entry.waiters,
      )
    ]

remove_peer-waiting :
    (w : Waiter) (s : RendezvousState) (peer : P2pId)
    → let (s', sent) = remove_peer s peer in waiting w s ≡ waiting w s' + answered w sent
unfolding remove_peer
remove_peer-waiting w s peer =
    retain_entries-waiting w (without_peer peer) (err P2pErrorCode.user_canceled) s.entries

step-waiting :
    (hash : Endpoint → ℕ) (w : Waiter) (s : RendezvousState) (c : Timestamp × Call)
    → Inv s
    → let (s', ws, sent) = step hash s c in
      waiting w s + times w ws ≡ waiting w s' + answered w sent
unfolding step
step-waiting hash w s (now, begins initiator request channel) v =
    begin-waiting w s initiator request now channel v
step-waiting hash w s (now, responds initiator request response) v =
    omega (arith, cache_response-waiting hash w s initiator request response now v.unique)
step-waiting hash w s (now, fails initiator request) v =
    omega (arith, fail_unanswered-waiting w s initiator request v.unique)
step-waiting hash w s (now, removes peer) v = omega (arith, remove_peer-waiting w s peer)

run_from-waiting :
    (hash : Endpoint → ℕ) (w : Waiter) (s : RendezvousState) (cs : List (Timestamp × Call))
    → Inv s
    → let (s', ws, sent) = run hash s cs in
      waiting w s + times w ws ≡ waiting w s' + answered w sent
unfolding run
run_from-waiting hash w s [] v = omega arith
run_from-waiting hash w s (c ∷ cs) v =
    let (s', ws, sent) = step hash s c in
    let (s'', ws', sent') = run hash s' cs in
    omega (
      arith,
      step-waiting hash w s c v,
      run_from-waiting hash w s' cs (step-Inv hash s c v),
      countp-append (λ u. u == w) ws ws',
      answered-append w sent sent',
    )

-- No waiting duplicate is lost, and none is answered twice: after any calls from the empty table on,
-- each channel has been put to wait as often as it still waits and has been answered, together.
pub run-waiting :
    (hash : Endpoint → ℕ) (w : Waiter) (cs : List (Timestamp × Call))
    → let (s, ws, sent) = run hash empty_state cs in times w ws ≡ waiting w s + answered w sent
run-waiting hash w cs = omega (arith, run_from-waiting hash w empty_state cs empty-Inv)
