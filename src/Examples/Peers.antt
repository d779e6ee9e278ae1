-- ===== src/Examples/Peers.antt =====
-- The peers of an SN (PeerManager) at a sequence of calls. A certificate is here its endpoints.
use bucky_p2p.Base.{List, [], ◌∷◌, none, some, Timestamp}
use bucky_p2p.Endpoint.{Endpoint}
use bucky_p2p.NatType.Profile.{unknown_profile}
use bucky_p2p.PeerManager.Known.{
  PeerCall, adds, updates, updates_profile, sets_profile, invalidates, removes, manage_all,
  IsPeerMap, manage_all-IsPeerMap,
}
use bucky_p2p.Examples.Samples.{alice, carol, mapped_tcp, reflexive}

abbrev listed : List Endpoint → List Endpoint
listed cert = cert

-- Alice comes with a reflexive address, is updated twice, and then with a mapped one; Carol comes and goes.
abbrev calls : List (Timestamp × PeerCall (List Endpoint))
calls =
    (10, adds alice (reflexive 4000 ∷ []))
    ∷ (20, updates carol none 1 [] [])
    ∷ (30, updates alice none 1 [] (reflexive 5000 ∷ []))
    ∷ (40, updates_profile carol (some []) [] [] unknown_profile)
    ∷ (50, updates alice (some (mapped_tcp ∷ [])) 1 [] [])
    ∷ (60, invalidates alice)
    ∷ (70, removes carol)
    ∷ (80, sets_profile carol unknown_profile)
    ∷ []

manage_all-IsPeerMap_example : IsPeerMap listed (manage_all listed [] calls)
manage_all-IsPeerMap_example = manage_all-IsPeerMap listed calls
