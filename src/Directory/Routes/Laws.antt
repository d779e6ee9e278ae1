-- ===== src/Directory/Routes/Laws.antt =====
-- p2p-frame/src/sn/directory/route.rs: which route a store keeps.
use bucky_p2p.Base.{
  ℕ, max, ◌≡◌, refl, ◌&&◌, Option, none, some, List, [], ◌∷◌, ◌≟◌, if◌then◌else◌, get, insert,
  get-insert, arith,
}
use bucky_p2p.Identity.{P2pId, id_eq}
use bucky_p2p.Directory.Routes.{PeerRoute, PeerRoutes, PeerRouteStore, routes_of, put_route}

abbrev sequence_of : Option PeerRoute → ℕ
sequence_of none = 0
sequence_of (some route) = route.sequence

-- The sequence of the route that a store has for a peer over a serving node, 0 where it has none.
unfoldable pub sequence_at : P2pId → P2pId → PeerRouteStore → ℕ
sequence_at peer serving store = sequence_of (get serving (routes_of peer store))

routes_of-insert :
    (peer other : P2pId) (routes : PeerRoutes) (store : PeerRouteStore)
    → routes_of other (insert peer routes store)
      ≡ (if peer ≟ other then routes else routes_of other store)
unfolding routes_of
routes_of-insert peer other routes store = ground (arith, get-insert peer other routes store)

sequence_at-put_route :
    (peer serving : P2pId) (store : PeerRouteStore) (route : PeerRoute)
    → sequence_at peer serving (put_route store route).0 ≡ (
        if route.peer_id ≟ peer && route.serving_sn_id ≟ serving
        then max (sequence_at peer serving store) route.sequence
        else sequence_at peer serving store)
unfolding sequence_at put_route
sequence_at-put_route peer serving store route =
    let routes = routes_of route.peer_id store in
    ground (
      arith,
      routes_of-insert route.peer_id peer routes store,
      routes_of-insert route.peer_id peer (insert route.serving_sn_id route routes) store,
      get-insert route.serving_sn_id serving route routes,
    )

unfoldable pub put_all : PeerRouteStore → List PeerRoute → PeerRouteStore
put_all store [] = store
put_all store (route ∷ rest) = put_all (put_route store route).0 rest

-- The highest sequence among those of the routes for a peer over a serving node, and `known`.
unfoldable pub newest : P2pId → P2pId → ℕ → List PeerRoute → ℕ
newest peer serving known [] = known
newest peer serving known (route ∷ rest) =
    newest peer serving
      (if route.peer_id ≟ peer && route.serving_sn_id ≟ serving
        then max known route.sequence
        else known)
      rest

-- However routes arrive, late and repeated ones among them: for each peer and serving node the sequence
-- of the route that the store keeps is the highest of its old one and of those that arrived.
pub sequence_at-put_all :
    (peer serving : P2pId) (store : PeerRouteStore) (routes : List PeerRoute)
    → sequence_at peer serving (put_all store routes)
      ≡ newest peer serving (sequence_at peer serving store) routes
unfolding put_all newest
sequence_at-put_all peer serving store [] = refl
sequence_at-put_all peer serving store (route ∷ rest) =
    rw
      (
        sequence_at-put_all peer serving (put_route store route).0 rest,
        sequence_at-put_route peer serving store route,
      )
      refl
