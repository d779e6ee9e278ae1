-- ===== src/Rendezvous/Calls.antt =====
-- Sequences of calls of the rendezvous table (Rendezvous/State), by one task after another under the
-- lock of the service.
use bucky_p2p.Base.{ℕ, List, [], ◌∷◌, ◌++◌, ok, err, Timestamp, P2pResult}
use bucky_p2p.Identity.{P2pId}
use bucky_p2p.Endpoint.{Endpoint}
use bucky_p2p.Rendezvous.Protocol.{SnTunnelRendezvous, SnTunnelRendezvousResp}
use bucky_p2p.Rendezvous.State.{
  RendezvousState, RendezvousBegin, new, cached, in_flight, Waiter, Sent, begin, cache_response,
  fail_unanswered, remove_peer,
}

-- A call of the service; a `begins` brings the channel that is made for it.
pub data Call : Type 0 where
  begins : P2pId → SnTunnelRendezvous → Waiter → Call
  responds : P2pId → SnTunnelRendezvous → SnTunnelRendezvousResp → Call
  fails : P2pId → SnTunnelRendezvous → Call
  removes : P2pId → Call

-- The channels that a `begin` has put to wait.
abbrev pub joined : P2pResult RendezvousBegin → List Waiter
joined (ok (in_flight v)) = v ∷ []
joined (ok new) = []
joined (ok (cached r)) = []
joined (err e) = []

-- The table after a call, the channels that wait because of it, and the answers that it sends.
unfoldable pub step :
    (Endpoint → ℕ) → RendezvousState → Timestamp × Call → RendezvousState × List Waiter × Sent
step hash s (now, begins initiator request channel) =
    let (s', result, sent) = begin s initiator request now channel in (s', joined result, sent)
step hash s (now, responds initiator request response) =
    let (s', result, sent) = cache_response hash s initiator request response now in (s', [], sent)
step hash s (now, fails initiator request) =
    let (s', sent) = fail_unanswered s initiator request in (s', [], sent)
step hash s (now, removes peer) = let (s', sent) = remove_peer s peer in (s', [], sent)

unfoldable pub run :
    (Endpoint → ℕ)
    → RendezvousState
    → List (Timestamp × Call)
    → RendezvousState × List Waiter × Sent
run hash s [] = (s, [], [])
run hash s (c ∷ cs) =
    let (s', ws, sent) = step hash s c in
    let (s'', ws', sent') = run hash s' cs in (s'', ws ++ ws', sent ++ sent')
