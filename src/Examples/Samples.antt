-- ===== src/Examples/Samples.antt =====
-- Concrete peers, endpoints and requests for the examples.
use bucky_p2p.Base.{ℕ, [], ◌∷◌, false}
use bucky_p2p.Identity.{P2pId}
use bucky_p2p.Net.{Ipv4Addr, v4}
use bucky_p2p.Endpoint.{Endpoint, tcp, quic, server_reflexive, mapped}
use bucky_p2p.Rendezvous.Protocol.{
  SnTunnelRendezvous, SnTunnelRendezvousResp, wait_incoming, resp_success,
}

abbrev pub alice : P2pId
alice = record { bytes = 1 ∷ [] }

abbrev pub bob : P2pId
bob = record { bytes = 2 ∷ [] }

abbrev pub carol : P2pId
carol = record { bytes = 3 ∷ [] }

abbrev pub eight : Ipv4Addr
eight = record { o0 = 8; o1 = 8; o2 = 4; o3 = 4 }

abbrev pub reflexive : ℕ → Endpoint
reflexive port = record { area = server_reflexive; protocol = quic; addr = v4 eight port }

abbrev pub mapped_tcp : Endpoint
mapped_tcp = record { area = mapped; protocol = tcp; addr = v4 eight 3000 }

abbrev pub wait_request : SnTunnelRendezvous
wait_request = record {
  seq = 7;
  tunnel_id = 9;
  to_peer_id = bob;
  operation = wait_incoming;
  end_point_array = [];
  need_predict_endpoint = false;
}

abbrev pub wait_response : SnTunnelRendezvousResp
wait_response = resp_success 7 []
