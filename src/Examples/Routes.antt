-- ===== src/Examples/Routes.antt =====
-- The theorem on the routes of a peer at a concrete input.
use bucky_p2p.Base.{ℕ, ◌≡◌, List, [], ◌∷◌}
use bucky_p2p.Directory.Routes.{PeerRoute, PeerRouteStore}
use bucky_p2p.Directory.Routes.Laws.{sequence_at, put_all, newest, sequence_at-put_all}
use bucky_p2p.Examples.Samples.{alice, bob, carol}

abbrev route : ℕ → PeerRoute
route sequence = record { peer_id = carol; serving_sn_id = bob; sequence = sequence }

abbrev no_routes : PeerRouteStore
no_routes = []

-- The second route arrives late.
abbrev arrivals : List PeerRoute
arrivals = route 5 ∷ route 3 ∷ record { peer_id = carol; serving_sn_id = alice; sequence = 9 } ∷ []

sequence_at-put_all_example :
    sequence_at carol bob (put_all no_routes arrivals)
    ≡ newest carol bob (sequence_at carol bob no_routes) arrivals
sequence_at-put_all_example = sequence_at-put_all carol bob no_routes arrivals
