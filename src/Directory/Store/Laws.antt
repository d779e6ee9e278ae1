-- ===== src/Directory/Store/Laws.antt =====
-- p2p-frame/src/sn/directory/store.rs: what the directory store answers.
use bucky_p2p.Base.{◌<◌, ◌≡◌, refl, true, Option, none, some, List, [], ◌∷◌, All, Timestamp, arith}
use bucky_p2p.Identity.{P2pId, id_eq}
use bucky_p2p.Directory.Membership.{ServingLease}
use bucky_p2p.Directory.ControlPlane.{
  OwnerControlPlane, is_serving_online, serving_online_expires_at,
}
use bucky_p2p.Directory.Routes.{PeerRoute, to_lease}
use bucky_p2p.Directory.Store.{OwnerDirectoryStore, query, leases_of, query_routes}

-- A lease that is fresh at a time, over a serving node that is online at it.
abbrev pub IsLive : OwnerControlPlane → Timestamp → ServingLease → Type 0
IsLive p now lease = (now < lease.expires_at) × (is_serving_online p lease.serving_sn_id now ≡ true)

serving_online_expires_at_sound :
    (p : OwnerControlPlane) (id : P2pId) (now expires_at : Timestamp)
    → serving_online_expires_at p id now ≡ some expires_at
    → (now < expires_at) × (is_serving_online p id now ≡ true)
unfolding serving_online_expires_at is_serving_online
serving_online_expires_at_sound p id now expires_at h = ground arith

All-cons_lease :
    (p : OwnerControlPlane) (route : PeerRoute) (now : Timestamp) (found : Option Timestamp)
    (others : List ServingLease)
    → serving_online_expires_at p route.serving_sn_id now ≡ found
    → All (IsLive p now) others
    → All (IsLive p now) (elim found [ none ↦ others | some e ↦ to_lease route e ∷ others ])
All-cons_lease p route now none others h hs = hs
All-cons_lease p route now (some e) others h hs =
    (serving_online_expires_at_sound p route.serving_sn_id now e h, hs)

leases_of-IsLive :
    (p : OwnerControlPlane) (routes : List PeerRoute) (now : Timestamp)
    → All (IsLive p now) (leases_of p routes now)
unfolding leases_of
leases_of-IsLive p [] now = tt
leases_of-IsLive p (route ∷ rest) now =
    All-cons_lease p route now (serving_online_expires_at p route.serving_sn_id now)
      (leases_of p rest now) refl (leases_of-IsLive p rest now)

-- Every lease that a query returns is fresh, and its serving node is online at the time of the query.
pub query-IsLive :
    (d : OwnerDirectoryStore) (peer : P2pId) (now : Timestamp)
    → let (d', leases) = query d peer now in All (IsLive d'.control_plane now) leases
unfolding query
query-IsLive d peer now =
    let (d', routes) = query_routes d peer now in leases_of-IsLive d'.control_plane routes now
