-- ===== src/Rendezvous/Lives.antt =====
-- A rendezvous request stays in the table (Rendezvous/State) under a call.
use bucky_p2p.Base.{
  ℕ, ◌<◌, ◌≡◌, ◌≢◌, inl, inr, refl, ◌⊎◌, Option, none, some, [], ◌∷◌, ◌++◌, arith, keep, true,
  HashMap, get, get-insert, get-remove, Timestamp, Option-cases, Bool, Bool-cases, leb,
}
use bucky_p2p.Identity.{P2pId, id_eq}
use bucky_p2p.Endpoint.{Endpoint}
use bucky_p2p.Rendezvous.Protocol.{SnTunnelRendezvous, SnTunnelRendezvousResp, resp_failure}
use bucky_p2p.Rendezvous.State.{
  RendezvousKey, RendezvousEntry, RendezvousState, Waiter, key_eq, key_of, cleanup, is_live,
  begin_known, begin_new, begin_clean, begin, cache_live, cache_response, fail_unanswered,
  remove_peer, without_peer, new_entry,
}
use bucky_p2p.Rendezvous.Limits.{cleanup_lem, retain_entries-keep}

get-keep :
    (live : RendezvousKey × RendezvousEntry → Bool) (k : RendezvousKey) (e : RendezvousEntry)
    (m : HashMap RendezvousKey RendezvousEntry)
    → get k m ≡ some e
    → live (k, e) ≡ true
    → get k (keep live m) ≡ some e
unfolding get
get-keep live k e [] g h = cc
get-keep live k e ((j, f) ∷ m) g h = ground (arith, get-keep live k e m)

-- The request and the deadline of an entry, and its response.
abbrev pub request_of : Option RendezvousEntry → Option (SnTunnelRendezvous × Timestamp)
request_of none = none
request_of (some e) = some (e.request, e.expires_at)

abbrev pub response_of : Option RendezvousEntry → Option SnTunnelRendezvousResp
response_of none = none
response_of (some e) = e.response

module _ (initiator : P2pId) (request : SnTunnelRendezvous) (deadline : Timestamp) where
  -- The request is in the table, until its deadline.
  abbrev pub Lives : RendezvousState → Type 0
  Lives s = request_of (get (key_of initiator request) s.entries) ≡ some (request, deadline)

  -- The request has this response.
  abbrev pub Has : SnTunnelRendezvousResp → RendezvousState → Type 0
  Has r s = response_of (get (key_of initiator request) s.entries) ≡ some r

  kept_by :
      (s : RendezvousState) (live : RendezvousKey × RendezvousEntry → Bool)
      → ((e : RendezvousEntry)
          → e.request ≡ request
          → e.expires_at ≡ deadline
          → live (key_of initiator request, e) ≡ true)
      → Lives s
      → get (key_of initiator request) (keep live s.entries)
        ≡ get (key_of initiator request) s.entries
  kept_by s live spared h = elim (Option-cases (get (key_of initiator request) s.entries)) [
    | inl g ↦ absurd (ground arith)
    | inr (e, g) ↦ rw g (
        get-keep live (key_of initiator request) e s.entries g
          (spared e (ground arith) (ground arith)))
  ]

  pub cleanup-get :
      (s : RendezvousState) (now : Timestamp)
      → now < deadline
      → Lives s
      → get (key_of initiator request) (cleanup s now).0.entries
        ≡ get (key_of initiator request) s.entries
  cleanup-get s now lt h =
      rw (cleanup_lem s now) (kept_by s (is_live now) (λ e same until. ground arith) h)

  remove_peer-get :
      (s : RendezvousState) (peer : P2pId)
      → peer ≢ initiator
      → peer ≢ request.to_peer_id
      → Lives s
      → get (key_of initiator request) (remove_peer s peer).0.entries
        ≡ get (key_of initiator request) s.entries
  unfolding remove_peer
  remove_peer-get s peer a b h =
      rw (retain_entries-keep (without_peer peer) _ s.entries)
        (kept_by s (without_peer peer) (λ e same until. ground arith) h)

  begin_clean-Lives :
      (s : RendezvousState) (i : P2pId) (r : SnTunnelRendezvous) (now : Timestamp) (c : Waiter)
      → Lives s
      → Lives (begin_clean s i r now c).0
        × (response_of (get (key_of initiator request) (begin_clean s i r now c).0.entries)
            ≡ response_of (get (key_of initiator request) s.entries))
  unfolding begin_clean begin_known begin_new
  begin_clean-Lives s i r now c h = elim (Option-cases (get (key_of i r) s.entries)) [
    | inl g ↦
        ground
          (arith, get-insert (key_of i r) (key_of initiator request) (new_entry r now) s.entries)
    | inr (e, g) ↦ ground (
      arith,
      get-insert (key_of i r) (key_of initiator request)
          (record e { waiters = e.waiters ++ c ∷ [] }) s.entries,
    )
  ]

  pub begin-Lives :
      (s : RendezvousState) (i : P2pId) (r : SnTunnelRendezvous) (now : Timestamp) (c : Waiter)
      → now < deadline
      → Lives s
      → Lives (begin s i r now c).0
        × (response_of (get (key_of initiator request) (begin s i r now c).0.entries)
            ≡ response_of (get (key_of initiator request) s.entries))
  unfolding begin
  begin-Lives s i r now c lt h =
      let same = cleanup-get s now lt h in
      ground (arith, same, begin_clean-Lives (cleanup s now).0 i r now c)

  pub fail_unanswered-Lives :
      (s : RendezvousState) (i : P2pId) (r : SnTunnelRendezvous)
      → (key_of i r ≢ key_of initiator request) ⊎ ((given : SnTunnelRendezvousResp) × Has given s)
      → Lives s
      → get (key_of initiator request) (fail_unanswered s i r).0.entries
        ≡ get (key_of initiator request) s.entries
  unfolding fail_unanswered
  fail_unanswered-Lives s i r free h = elim (Option-cases (get (key_of i r) s.entries)) [
    | inl g ↦ ground arith
    | inr (e, g) ↦ ground (
      arith,
      get-insert (key_of i r) (key_of initiator request) e s.entries,
      get-remove (key_of i r) (key_of initiator request) s.entries,
    )
  ]

  pub remove-get :
      (s : RendezvousState) (peer : P2pId)
      → (peer ≢ initiator) × (peer ≢ request.to_peer_id)
      → Lives s
      → get (key_of initiator request) (remove_peer s peer).0.entries
        ≡ get (key_of initiator request) s.entries
  remove-get s peer (a, b) h = remove_peer-get s peer a b h

  module _ (hash : Endpoint → ℕ) where
    cache_live-get :
        (s : RendezvousState) (i : P2pId) (e : RendezvousEntry) (r : SnTunnelRendezvous)
        (response : SnTunnelRendezvousResp)
        → get (key_of i r) s.entries ≡ some e
        → Lives s
        → Lives (cache_live hash s (key_of i r) e r response).0
          × ((key_of i r ≢ key_of initiator request)
              → get
                  (key_of initiator request)
                  (cache_live hash s (key_of i r) e r response).0.entries
                ≡ get (key_of initiator request) s.entries)
    unfolding cache_live
    cache_live-get s i e r response g h =
        let written = λ (given : SnTunnelRendezvousResp).
          get-insert (key_of i r) (key_of initiator request)
            (record e { waiters = []; response = some given }) s.entries in
        (
          ground (arith, written response, written (resp_failure r.seq)),
          λ other. ground (arith, written response, written (resp_failure r.seq)),
        )

    pub cache_response-Lives :
        (s : RendezvousState) (i : P2pId) (r : SnTunnelRendezvous)
        (response : SnTunnelRendezvousResp) (now : Timestamp)
        → now < deadline
        → Lives s
        → Lives (cache_response hash s i r response now).0
          × ((key_of i r ≢ key_of initiator request)
              → get (key_of initiator request) (cache_response hash s i r response now).0.entries
                ≡ get (key_of initiator request) s.entries)
    unfolding cache_response
    cache_response-Lives s i r response now lt h =
        elim (Option-cases (get (key_of i r) s.entries)) [
          | inl g ↦ rw (g, cache_response) (h, λ other. refl)
          | inr (e, g) ↦
              rw (g, cache_response)
                (elim (Bool-cases (leb e.expires_at now)) [
                  | inr live ↦ rw live (cache_live-get s i e r response g h)
                  | inl late ↦ rw late (
                    ground (arith, get-remove (key_of i r) (key_of initiator request) s.entries),
                    λ other.
                        ground
                          (arith, get-remove (key_of i r) (key_of initiator request) s.entries),
                  )
                ])
        ]
