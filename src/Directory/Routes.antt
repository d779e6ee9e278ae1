-- ===== src/Directory/Routes.antt =====
-- p2p-frame/src/sn/directory/route.rs: which serving nodes a peer is reached through.
pub mod Laws
use bucky_p2p.Base.{
  ℕ, Bool, true, false, ◌&&◌, ◌||◌, Option, none, some, List, [], map, ltb, ◌==◌, if◌then◌else◌,
  keep, HashMap, get, insert, Timestamp,
}
use bucky_p2p.Identity.{P2pId, id_eq, id_lt}
use bucky_p2p.Directory.Membership.{ServingLease, sort_by}
use bucky_p2p.Directory.ControlPlane.{OwnerControlPlane, is_serving_online}

pub record PeerRoute : Type 0 where
  pub peer_id : P2pId
  pub serving_sn_id : P2pId
  pub sequence : ℕ

abbrev pub from_lease : ServingLease → PeerRoute
from_lease lease = record {
  peer_id = lease.peer_id;
  serving_sn_id = lease.serving_sn_id;
  sequence = lease.sequence;
}

abbrev pub to_lease : PeerRoute → Timestamp → ServingLease
to_lease route expires_at = record {
  peer_id = route.peer_id;
  serving_sn_id = route.serving_sn_id;
  sequence = route.sequence;
  expires_at = expires_at;
}

abbrev pub PeerRoutes : Type 0
PeerRoutes = HashMap P2pId PeerRoute

abbrev pub PeerRouteStore : Type 0
PeerRouteStore = HashMap P2pId PeerRoutes

-- `entry(peer_id).or_default()`.
unfoldable pub routes_of : P2pId → PeerRouteStore → PeerRoutes
routes_of peer store = elim (get peer store) [ none ↦ [] | some routes ↦ routes ]

abbrev pub is_stale : Option PeerRoute → PeerRoute → Bool
is_stale none route = false
is_stale (some existing) route = ltb route.sequence existing.sequence

unfoldable pub put_route : PeerRouteStore → PeerRoute → PeerRouteStore × Bool
unfolding routes_of
put_route store route =
    let routes = routes_of route.peer_id store in
    if is_stale (get route.serving_sn_id routes) route
    then (insert route.peer_id routes store, false)
    else (insert route.peer_id (insert route.serving_sn_id route routes) store, true)

-- Newer sequences first, then smaller ids.
abbrev pub route_before : PeerRoute → PeerRoute → Bool
route_before a b =
    ltb b.sequence a.sequence || (a.sequence == b.sequence && id_lt a.serving_sn_id b.serving_sn_id)

abbrev pub route_online : OwnerControlPlane → Timestamp → P2pId × PeerRoute → Bool
route_online p now (id, route) = is_serving_online p route.serving_sn_id now

abbrev pub routes_of_map : PeerRoutes → List PeerRoute
routes_of_map routes = map (λ (x : P2pId × PeerRoute). x.1) routes

-- The routes over serving nodes that are not online are dropped for good.
unfoldable pub query_routes :
    PeerRouteStore → P2pId → OwnerControlPlane → Timestamp → PeerRouteStore × List PeerRoute
query_routes store peer p now = elim (get peer store) [
  | none ↦ (store, [])
  | some routes ↦
      let kept = keep (route_online p now) routes in
      (insert peer kept store, sort_by route_before (routes_of_map kept))
]
