-- ===== src/Rendezvous/Spared.antt =====
-- A rendezvous request stays in the table (Rendezvous/State) over sequences of calls.
use bucky_p2p.Base.{ℕ, ◌<◌, ◌≢◌, inl, inr, ap, ◌∙◌, List, [], ◌∷◌, All, Timestamp}
use bucky_p2p.Identity.{P2pId}
use bucky_p2p.Endpoint.{Endpoint}
use bucky_p2p.Rendezvous.Protocol.{SnTunnelRendezvous, SnTunnelRendezvousResp}
use bucky_p2p.Rendezvous.State.{RendezvousState, key_of}
use bucky_p2p.Rendezvous.Calls.{Call, begins, responds, fails, removes, step, run}
use bucky_p2p.Rendezvous.Lives.{
  Lives, Has, request_of, response_of, begin-Lives, cache_response-Lives, fail_unanswered-Lives,
  remove-get,
}

module _ (initiator : P2pId) (request : SnTunnelRendezvous) (deadline : Timestamp) where
  -- A call before the deadline that neither fails the request nor removes one of its two peers.
  abbrev pub Spares : Timestamp × Call → Type 0
  Spares (now, begins i r c) = now < deadline
  Spares (now, responds i r response) = now < deadline
  Spares (now, fails i r) = key_of i r ≢ key_of initiator request
  Spares (now, removes peer) = (peer ≢ initiator) × (peer ≢ request.to_peer_id)

  -- A call before the deadline that neither answers the request nor removes one of its two peers.
  abbrev pub SparesAnswer : Timestamp × Call → Type 0
  SparesAnswer (now, begins i r c) = now < deadline
  SparesAnswer (now, responds i r response) =
      (now < deadline) × (key_of i r ≢ key_of initiator request)
  SparesAnswer (now, fails i r) = Unit
  SparesAnswer (now, removes peer) = (peer ≢ initiator) × (peer ≢ request.to_peer_id)

  module _ (hash : Endpoint → ℕ) where
    step-Lives :
        (s : RendezvousState) (call : Timestamp × Call)
        → Spares call
        → Lives initiator request deadline s
        → Lives initiator request deadline (step hash s call).0
    unfolding step
    step-Lives s (now, begins i r c) lt h =
        (begin-Lives initiator request deadline s i r now c lt h).0
    step-Lives s (now, responds i r response) lt h =
        (cache_response-Lives initiator request deadline hash s i r response now lt h).0
    step-Lives s (now, fails i r) other h =
        ap request_of (fail_unanswered-Lives initiator request deadline s i r (inl other) h) ∙ h
    step-Lives s (now, removes peer) others h =
        ap request_of (remove-get initiator request deadline s peer others h) ∙ h

    -- Whatever is called, a request stays in the table until its deadline, unless it fails or one of
    -- its peers is removed.
    pub run-Lives :
        (s : RendezvousState) (calls : List (Timestamp × Call))
        → All Spares calls
        → Lives initiator request deadline s
        → Lives initiator request deadline (run hash s calls).0
    unfolding run
    run-Lives s [] spared h = h
    run-Lives s (c ∷ calls) spared h =
        run-Lives (step hash s c).0 calls spared.1 (step-Lives s c spared.0 h)

    step-Has :
        (s : RendezvousState) (call : Timestamp × Call) (given : SnTunnelRendezvousResp)
        → SparesAnswer call
        → Lives initiator request deadline s
        → Has initiator request deadline given s
        → Lives initiator request deadline (step hash s call).0
          × Has initiator request deadline given (step hash s call).0
    unfolding step
    step-Has s (now, begins i r c) given lt h a =
        let (lives, same) = begin-Lives initiator request deadline s i r now c lt h in
        (lives, same ∙ a)
    step-Has s (now, responds i r response) given (lt, other) h a =
        let (lives, same) =
          cache_response-Lives initiator request deadline hash s i r response now lt h in
        (lives, ap response_of (same other) ∙ a)
    step-Has s (now, fails i r) given free h a =
        let same = fail_unanswered-Lives initiator request deadline s i r (inr (given, a)) h in
        (ap request_of same ∙ h, ap response_of same ∙ a)
    step-Has s (now, removes peer) given others h a =
        let same = remove-get initiator request deadline s peer others h in
        (ap request_of same ∙ h, ap response_of same ∙ a)

    -- And its response stays, unless it is answered anew; then a failure changes nothing.
    pub run-Has :
        (s : RendezvousState) (calls : List (Timestamp × Call)) (given : SnTunnelRendezvousResp)
        → All SparesAnswer calls
        → Lives initiator request deadline s
        → Has initiator request deadline given s
        → Lives initiator request deadline (run hash s calls).0
          × Has initiator request deadline given (run hash s calls).0
    unfolding run
    run-Has s [] given spared h a = (h, a)
    run-Has s (c ∷ calls) given spared h a =
        let (lives, has) = step-Has s c given spared.0 h a in
        run-Has (step hash s c).0 calls given spared.1 lives has
