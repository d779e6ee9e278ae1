-- ===== src/Rendezvous/Limits.antt =====
-- The limits of the table of live requests (Rendezvous/State), and what keeps them.
use bucky_p2p.Base.{
  ◌≤◌, ◌≡◌, ◌⊎◌, refl, ap, Bool, true, ◌&&◌, none, some, List, [], ◌∷◌, arith, ◌≟◌, length, keep,
  countp, countp-keep-le, length-keep-le, All, All-keep, All-remove, All-insert, HashMap, get,
  insert, remove, countp-insert_found, countp-remove-le, Timestamp, countp-true,
}
use bucky_p2p.Base.MapTotals.{NodupKeys, NodupKeys-keep, NodupKeys-remove, NodupKeys-insert}
use bucky_p2p.Identity.{P2pId, id_eq}
use bucky_p2p.Rendezvous.Protocol.{SnTunnelRendezvous}
use bucky_p2p.Rendezvous.State.{
  RendezvousKey, RendezvousEntry, RendezvousState, Reply, key_eq, retain_entries, pop_old,
  retain_rates, is_live, cleanup, of_pair, remove_peer, without_peer, empty_state,
}

-- An entry has at most 8 waiters, and none once it has a response.
abbrev pub IsEntry : RendezvousKey × RendezvousEntry → Type 0
IsEntry (k, e) = (length e.waiters ≤ 8) × ((e.response ≡ none) ⊎ (e.waiters ≡ []))

abbrev pub IsRate : P2pId × List Timestamp → Type 0
IsRate (id, ts) = length ts ≤ 32

-- At most 256 live requests with distinct keys, at most 8 of one pair of peers, and at most 32
-- recorded times for one initiator.
pub record Inv (s : RendezvousState) : Type 0 where
  pub unique : NodupKeys s.entries
  pub live_bound : length s.entries ≤ 256
  pub pair_bound : (a b : P2pId) → countp (of_pair a b) s.entries ≤ 8
  pub entries_ok : All IsEntry s.entries
  pub rates_ok : All IsRate s.rate_windows

pub retain_entries-keep :
    (live : RendezvousKey × RendezvousEntry → Bool) (reply : Reply)
    (m : HashMap RendezvousKey RendezvousEntry)
    → (retain_entries live reply m).0 ≡ keep live m
unfolding retain_entries
retain_entries-keep live reply [] = refl
retain_entries-keep live reply ((k, e) ∷ m) = ground (arith, retain_entries-keep live reply m)

pub length-pop_old-le :
    (now : Timestamp) (ts : List Timestamp) → length (pop_old now ts) ≤ length ts
unfolding pop_old
length-pop_old-le now [] = omega arith
length-pop_old-le now (t ∷ ts) = ground (arith, length-pop_old-le now ts)

retain_rates-IsRate :
    (now : Timestamp) (m : HashMap P2pId (List Timestamp))
    → All IsRate m
    → All IsRate (retain_rates now m)
unfolding retain_rates
retain_rates-IsRate now [] h = tt
retain_rates-IsRate now ((id, ts) ∷ m) h =
    ground (arith, length-pop_old-le now ts, retain_rates-IsRate now m h.1)

-- Dropping entries keeps the limits.
pub keep-Inv :
    (s : RendezvousState) (live : RendezvousKey × RendezvousEntry → Bool)
    (rates : HashMap P2pId (List Timestamp))
    → Inv s
    → All IsRate rates
    → Inv (record { entries = keep live s.entries; rate_windows = rates })
keep-Inv s live rates v r = record {
  unique = NodupKeys-keep live s.entries v.unique;
  live_bound = omega (arith, v.live_bound, length-keep-le live s.entries);
  pair_bound = λ a b. omega (arith, v.pair_bound a b, countp-keep-le (of_pair a b) live s.entries);
  entries_ok = All-keep IsEntry live s.entries v.entries_ok;
  rates_ok = r;
}

pub cleanup_lem :
    (s : RendezvousState) (now : Timestamp)
    → (cleanup s now).0 ≡ record {
      entries = keep (is_live now) s.entries;
      rate_windows = retain_rates now s.rate_windows;
    }
unfolding cleanup
cleanup_lem s now = rw (retain_entries-keep (is_live now) _ s.entries)

pub cleanup-Inv : (s : RendezvousState) (now : Timestamp) → Inv s → Inv (cleanup s now).0
cleanup-Inv s now v =
    rw (cleanup_lem s now)
      (keep-Inv s (is_live now) _ v (retain_rates-IsRate now s.rate_windows v.rates_ok))

pub remove_peer-Inv : (s : RendezvousState) (peer : P2pId) → Inv s → Inv (remove_peer s peer).0
unfolding remove_peer
remove_peer-Inv s peer v =
    rw (retain_entries-keep (without_peer peer) _ s.entries)
      (keep-Inv s (without_peer peer) _ v (All-remove IsRate peer s.rate_windows v.rates_ok))

pub remove-Inv :
    (s : RendezvousState) (k : RendezvousKey)
    → Inv s
    → Inv (record s { entries = remove k s.entries })
remove-Inv s k v = record {
  unique = NodupKeys-remove k s.entries v.unique;
  live_bound = omega (
    arith,
    v.live_bound,
    countp-true s.entries,
    countp-true (remove k s.entries),
    countp-remove-le (λ x. true) k s.entries,
  );
  pair_bound = λ a b. omega (arith, v.pair_bound a b, countp-remove-le (of_pair a b) k s.entries);
  entries_ok = All-remove IsEntry k s.entries v.entries_ok;
  rates_ok = v.rates_ok;
}

-- Writing an entry again with the same request.
pub update-Inv :
    (s : RendezvousState) (k : RendezvousKey) (e f : RendezvousEntry)
    → Inv s
    → get k s.entries ≡ some e
    → f.request ≡ e.request
    → IsEntry (k, f)
    → Inv (record s { entries = insert k f s.entries })
update-Inv s k e f v g r i = record {
  unique = NodupKeys-insert k f s.entries v.unique;
  live_bound = omega (
    arith,
    v.live_bound,
    countp-true s.entries,
    countp-true (insert k f s.entries),
    countp-insert_found (λ x. true) k e f s.entries g refl,
  );
  pair_bound = λ a b. omega (
    arith,
    v.pair_bound a b,
    countp-insert_found (of_pair a b) k e f s.entries g
        (ap (λ (q : SnTunnelRendezvous). k.initiator ≟ a && q.to_peer_id ≟ b) r),
  );
  entries_ok = All-insert IsEntry k f s.entries i v.entries_ok;
  rates_ok = v.rates_ok;
}

pub empty-Inv : Inv empty_state
empty-Inv = record {
  unique = tt;
  live_bound = omega arith;
  pair_bound = λ a b. omega arith;
  entries_ok = tt;
  rates_ok = tt;
}
