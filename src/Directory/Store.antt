-- ===== src/Directory/Store.antt =====
-- p2p-frame/src/sn/directory/store.rs: the directory store, routes behind the control plane.
pub mod Laws
pub mod Revoked
use bucky_p2p.Base.{
  ℕ, ◌-◌, Bool, true, false, not, Option, none, some, List, [], ◌∷◌, if◌then◌else◌, ok, err,
  P2pResult, P2pErrorCode, Timestamp, Duration, saturating_sub,
}
use bucky_p2p.Identity.{P2pId}
use bucky_p2p.Directory.Membership.{ServingLease, OwnerMembership, lease_is_fresh, of_bucky_time}
use bucky_p2p.Directory.ControlPlane.{
  OwnerControlPlane, new_control_plane, renew_serving_online, mark_serving_offline,
  is_serving_online, serving_online_expires_at,
}
use bucky_p2p.Directory.Routes
use bucky_p2p.Directory.Routes.{PeerRoute, PeerRouteStore, from_lease, to_lease}

pub record OwnerDirectoryStore : Type 0 where
  pub control_plane : OwnerControlPlane
  pub routes : PeerRouteStore

abbrev pub with_membership : OwnerMembership → OwnerDirectoryStore
with_membership membership = record { control_plane = new_control_plane membership; routes = [] }

unfoldable pub put_route : OwnerDirectoryStore → PeerRoute → Timestamp → OwnerDirectoryStore × Bool
put_route d route now =
    if not (is_serving_online d.control_plane route.serving_sn_id now)
    then (d, false)
    else let (routes, done) = Routes.put_route d.routes route in
      (record d { routes = routes }, done)

unfoldable pub query_routes :
    OwnerDirectoryStore → P2pId → Timestamp → OwnerDirectoryStore × List PeerRoute
query_routes d peer now =
    let (routes, found) = Routes.query_routes d.routes peer d.control_plane now in
    (record d { routes = routes }, found)

-- The end of `put_lease`, after the renewal.
abbrev pub put_renewed :
    OwnerDirectoryStore
    → OwnerControlPlane
    → P2pResult ℕ
    → PeerRoute
    → Timestamp
    → OwnerDirectoryStore × Bool
put_renewed d p (err e) route now = (record d { control_plane = p }, false)
put_renewed d p (ok index) route now = put_route (record d { control_plane = p }) route now

unfoldable pub put_lease :
    OwnerDirectoryStore → ServingLease → Timestamp → OwnerDirectoryStore × Bool
put_lease d lease now =
    if not (lease_is_fresh lease now) then (d, false) else elim d.control_plane.leader_id [
      | none ↦ (d, false)
      | some leader ↦
          let ttl = of_bucky_time (saturating_sub lease.expires_at now) in
          let (p, result) =
            renew_serving_online d.control_plane leader lease.serving_sn_id ttl now in
          put_renewed d p result (from_lease lease) now
    ]

unfoldable pub revoke_serving_session :
    OwnerDirectoryStore → P2pId → Timestamp → OwnerDirectoryStore × P2pResult ℕ
revoke_serving_session d serving now = elim d.control_plane.leader_id [
  | none ↦ (d, err P2pErrorCode.not_found)
  | some leader ↦
      let (p, result) = mark_serving_offline d.control_plane leader serving now in
      (record d { control_plane = p }, result)
]

unfoldable pub renew_serving_session :
    OwnerDirectoryStore → P2pId → Duration → Timestamp → OwnerDirectoryStore × P2pResult ℕ
renew_serving_session d serving ttl now = elim d.control_plane.leader_id [
  | none ↦ (d, err P2pErrorCode.not_found)
  | some leader ↦
      let (p, result) = renew_serving_online d.control_plane leader serving ttl now in
      (record d { control_plane = p }, result)
]

-- The leases of the routes whose serving node is still online.
unfoldable pub leases_of : OwnerControlPlane → List PeerRoute → Timestamp → List ServingLease
leases_of p [] now = []
leases_of p (route ∷ rest) now =
    let others = leases_of p rest now in
    elim (serving_online_expires_at p route.serving_sn_id now) [
      | none ↦ others
      | some expires_at ↦ to_lease route expires_at ∷ others
    ]

unfoldable pub query :
    OwnerDirectoryStore → P2pId → Timestamp → OwnerDirectoryStore × List ServingLease
query d peer now =
    let (d', routes) = query_routes d peer now in (d', leases_of d'.control_plane routes now)
