-- ===== src/Directory/Store/Revoked.antt =====
-- p2p-frame/src/sn/directory/store.rs: a serving node whose session was revoked is not found again
-- before it is renewed, whatever else the store does.
use bucky_p2p.Base.{
  ℕ, ◌≤◌, ◌≡◌, ◌≢◌, refl, sym, ap, ◌∙◌, false, Option, none, some, List, [], ◌∷◌, ok, err, All, get,
  get-insert, Timestamp, Duration, P2pResult, P2pErrorCode, arith, saturating_sub, Option-cases,
  inl, inr,
}
use mathlib.Core.Bool.{true≢false}
use bucky_p2p.Identity.{P2pId, id_eq}
use bucky_p2p.Directory.Membership.{ServingLease, of_bucky_time}
use bucky_p2p.Directory.ControlPlane.{
  OwnerControlPlane, ServingSnSession, OwnerSessionEntry, is_serving_online, mark_serving_offline,
  renew_serving_online, append_as_leader, apply_entry, online_session, is_online,
}
use bucky_p2p.Directory.ControlPlane
use bucky_p2p.Directory.ControlPlane.Sessions.{mark_serving_offline-is_serving_online}
use bucky_p2p.Directory.Routes.{PeerRoute, from_lease}
use bucky_p2p.Directory.Store.{
  OwnerDirectoryStore, query, query_routes, put_route, put_lease, put_renewed,
  renew_serving_session, revoke_serving_session,
}
use bucky_p2p.Directory.Store.Laws.{IsLive, query-IsLive}

-- The calls of the store.
pub data StoreCall : Type 0 where
  puts_route : PeerRoute → StoreCall
  puts_lease : ServingLease → StoreCall
  renews : P2pId → Duration → StoreCall
  revokes : P2pId → StoreCall
  queries : P2pId → StoreCall

unfoldable pub serve_store : OwnerDirectoryStore → Timestamp × StoreCall → OwnerDirectoryStore
serve_store d (now, puts_route route) = (put_route d route now).0
serve_store d (now, puts_lease lease) = (put_lease d lease now).0
serve_store d (now, renews id ttl) = (renew_serving_session d id ttl now).0
serve_store d (now, revokes id) = (revoke_serving_session d id now).0
serve_store d (now, queries peer) = (query d peer now).0

unfoldable pub serve_store_all :
    OwnerDirectoryStore → List (Timestamp × StoreCall) → OwnerDirectoryStore
serve_store_all d [] = d
serve_store_all d (c ∷ calls) = serve_store_all (serve_store d c) calls

revoke_serving_session-offline :
    (d : OwnerDirectoryStore) (serving : P2pId) (now t index : ℕ)
    → (revoke_serving_session d serving now).1 ≡ ok index
    → now ≤ t
    → is_serving_online (revoke_serving_session d serving now).0.control_plane serving t ≡ false
unfolding revoke_serving_session
revoke_serving_session-offline d serving now t index h le = by_leader d.control_plane.leader_id h
  where
    Revoked : Option P2pId → OwnerDirectoryStore × P2pResult ℕ
    Revoked none = (d, err P2pErrorCode.not_found)
    Revoked (some leader) =
        let (p, result) = mark_serving_offline d.control_plane leader serving now in
        (record d { control_plane = p }, result)

    by_leader :
        (found : Option P2pId)
        → (Revoked found).1 ≡ ok index
        → is_serving_online (Revoked found).0.control_plane serving t ≡ false
    by_leader none h = cc
    by_leader (some leader) h =
        mark_serving_offline-is_serving_online d.control_plane leader serving now t index h le

All-IsLive_other :
    (p : OwnerControlPlane) (serving : P2pId) (t : Timestamp) (leases : List ServingLease)
    → is_serving_online p serving t ≡ false
    → All (IsLive p t) leases
    → All (λ lease. lease.serving_sn_id ≢ serving) leases
All-IsLive_other p serving t [] off h = tt
All-IsLive_other p serving t (lease ∷ leases) off ((_, on), hs) = (
  λ same. true≢false (sym on ∙ ap (λ id. is_serving_online p id t) same ∙ off),
  All-IsLive_other p serving t leases off hs,
)

module _ (serving : P2pId) (t : Timestamp) where
  -- A call that does not renew the session of the serving node.
  abbrev pub LeavesOffline : Timestamp × StoreCall → Type 0
  LeavesOffline (now, puts_route route) = Unit
  LeavesOffline (now, puts_lease lease) = lease.serving_sn_id ≢ serving
  LeavesOffline (now, renews id ttl) = id ≢ serving
  LeavesOffline (now, revokes id) = Unit
  LeavesOffline (now, queries peer) = Unit

  abbrev IsOffline : OwnerControlPlane → Type 0
  IsOffline p = is_serving_online p serving t ≡ false

  renew_serving_online-IsOffline :
      (p : OwnerControlPlane) (leader id : P2pId) (ttl : Duration) (now : Timestamp)
      → id ≢ serving
      → IsOffline p
      → IsOffline (renew_serving_online p leader id ttl now).0
  unfolding append_as_leader apply_entry is_serving_online
  renew_serving_online-IsOffline p leader id ttl now other off =
      ground (arith, get-insert id serving (online_session id ttl now) p.sessions)

  mark_serving_offline-IsOffline :
      (p : OwnerControlPlane) (leader id : P2pId) (now : Timestamp)
      → IsOffline p
      → IsOffline (mark_serving_offline p leader id now).0
  unfolding append_as_leader apply_entry is_serving_online
  mark_serving_offline-IsOffline p leader id now off = elim (Option-cases (get id p.sessions)) [
    | inl g ↦ ground arith
    | inr (s, g) ↦ ground (
      arith,
      get-insert id serving (record s { state = ControlPlane.offline; expires_at = now })
          p.sessions,
    )
  ]

  put_renewed-control_plane :
      (d : OwnerDirectoryStore) (p : OwnerControlPlane) (result : P2pResult ℕ) (route : PeerRoute)
      (now : Timestamp)
      → (put_renewed d p result route now).0.control_plane ≡ p
  unfolding put_route
  put_renewed-control_plane d p (err e) route now = refl
  put_renewed-control_plane d p (ok index) route now = ground arith

  serve_store-IsOffline :
      (d : OwnerDirectoryStore) (c : Timestamp × StoreCall)
      → LeavesOffline c
      → IsOffline d.control_plane
      → IsOffline (serve_store d c).control_plane
  unfolding serve_store put_route put_lease renew_serving_session revoke_serving_session query
      query_routes
  serve_store-IsOffline d (now, puts_route route) other off = ground arith
  serve_store-IsOffline d (now, puts_lease lease) other off =
      elim (Option-cases d.control_plane.leader_id) [
        | inl e ↦ ground arith
        | inr (leader, e) ↦
            let ttl = of_bucky_time (saturating_sub lease.expires_at now) in
            let (p, result) =
              renew_serving_online d.control_plane leader lease.serving_sn_id ttl now in
            ground (
              arith,
              put_renewed-control_plane d p result (from_lease lease) now,
              renew_serving_online-IsOffline d.control_plane leader lease.serving_sn_id ttl now
                  other off,
            )
      ]
  serve_store-IsOffline d (now, renews id ttl) other off =
      elim (Option-cases d.control_plane.leader_id) [
        | inl e ↦ ground arith
        | inr (leader, e) ↦
            ground
              (arith, renew_serving_online-IsOffline d.control_plane leader id ttl now other off)
      ]
  serve_store-IsOffline d (now, revokes id) other off =
      elim (Option-cases d.control_plane.leader_id) [
        | inl e ↦ ground arith
        | inr (leader, e) ↦
            ground (arith, mark_serving_offline-IsOffline d.control_plane leader id now off)
      ]
  serve_store-IsOffline d (now, queries peer) other off = off

  serve_store_all-IsOffline :
      (d : OwnerDirectoryStore) (calls : List (Timestamp × StoreCall))
      → All LeavesOffline calls
      → IsOffline d.control_plane
      → IsOffline (serve_store_all d calls).control_plane
  unfolding serve_store_all
  serve_store_all-IsOffline d [] others off = off
  serve_store_all-IsOffline d (c ∷ calls) others off =
      serve_store_all-IsOffline (serve_store d c) calls others.1
        (serve_store-IsOffline d c others.0 off)

-- After a revocation that succeeds, and any calls of the store that do not renew the session of that
-- serving node, neither directly nor with a lease over it, no query at the time of the revocation or
-- later returns a lease over that serving node, for any peer.
pub revoke_serving_session-query :
    (d : OwnerDirectoryStore) (serving peer : P2pId) (now t index : ℕ)
    (calls : List (Timestamp × StoreCall))
    → (revoke_serving_session d serving now).1 ≡ ok index
    → now ≤ t
    → All (LeavesOffline serving t) calls
    → All
        (λ lease. lease.serving_sn_id ≢ serving)
        (query (serve_store_all (revoke_serving_session d serving now).0 calls) peer t).1
unfolding query query_routes
revoke_serving_session-query d serving peer now t index calls done le others =
    let d' = serve_store_all (revoke_serving_session d serving now).0 calls in
    All-IsLive_other d'.control_plane serving t _
      (serve_store_all-IsOffline serving t (revoke_serving_session d serving now).0 calls others
        (revoke_serving_session-offline d serving now t index done le))
      (query-IsLive d' peer t)
