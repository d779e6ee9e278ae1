-- ===== src/Lib.antt =====
-- The peer-to-peer framework of p2p-frame: its endpoints, identifiers and NAT profiles, the plan by
-- which two peers connect, the rendezvous service of an SN (a signalling node), and the directory in
-- which the owner nodes keep which SN serves which peer.
--
-- A peer reports the mappings of its NAT as a profile, which it measures when the SN directs it to and by
-- itself. When two peers are to connect, the plan is
-- chosen from both profiles; the caller asks its SN for a rendezvous, the SN validates the request,
-- keeps it in its table and forwards it, and answers repeated requests from the table. The SN of
-- another peer is found in the directory: a store of routes, over a control plane with the log of the
-- sessions of the serving nodes, which the elected leader of the owners commits with a quorum.
--
-- Files and the code that they model, all of it below p2p-frame/src:
--   Base      Boolean tests, lists, hash maps as association lists with their laws, machine integers,
--             results, and the error codes of error.rs (Base/Results)
--   Identity  p2p_identity.rs: P2pId with the derived equality and order
--   Net       std::net addresses by their octets and segments, which the other files compute with
--   Types     types.rs: the generators of Sequence, TunnelId and SessionId (generate), the two orders
--             of TunnelId (partial_cmp, cmp)
--   Endpoint  endpoint.rs: areas and address classes; Codec its bytes (raw_encode, raw_decode), Text its
--             text (Display as to_text, FromStr as from_text)
--   NatType   nat_type.rs: Prediction (NatPredictionHint), Profile (NatProfile, NatTraversalContext)
--   ConnectPlan  tunnel/nat_connect_plan.rs
--   NatProbe  the directive and result of sn/protocol/sn.rs; Scheduler and Reports are
--             sn/service/nat_probe_scheduler.rs, Invariant its sequences of calls
--   PeerManager  sn/service/peer_manager.rs; Known its sequences of calls
--   Service   sn/service/service.rs, where it joins the scheduler and the table of peers
--   TunnelManager  tunnel/tunnel_manager.rs: Owners the rendezvous attempts and waiters, Upgrades the retries
--             that replace a proxy tunnel, Entries the registered tunnels
--   Tcp       networks/tcp/tunnel.rs and protocol.rs: Correlation (ReverseOpenCorrelation), Claims
--             (process_claim_req), Lease and LeaseEvents (LeaseContext with its reads, writes, frames
--             and releases), Ids (next_local_id_value)
--   Rendezvous   Protocol is the request and response of sn/protocol/sn.rs and their validation, State
--             is sn/service/rendezvous_state.rs, Calls its sequences of calls
--   Directory    sn/directory: Membership, ControlPlane, Routes (route.rs), Store and Election, where
--             Node has the handlers of a node and Rounds its elections, heartbeats and commits
--   Examples  the theorems at concrete inputs
--
-- State and operations: a struct under a lock is a record, and a method that changes it a function from
-- the record and its arguments to the new record and the result. An error is its code; the message is
-- not modelled. A one-shot channel is a number, and an operation returns what it sends to which
-- channel. A HashMap is an association list, whose order nothing reads. Numbers are natural numbers;
-- the wrap of 32-bit counters and the saturation at the largest u64 are written out, timestamps are
-- microseconds and durations nanoseconds. The loops are recursions on the lists and counts that they
-- run over; only the draw of a local number runs on fuel, and two draws are enough.
--
-- A leased TCP connection and its lease, which the code shares between the tunnel, the entry and the
-- channel, are one record, and every critical section is one event.
--
-- Parameters: the endpoints of a certificate, the printer and parser of socket addresses, the hash of endpoints, the score of an owner
-- for a peer, and the transport between owners (OwnerPeerControlClient), which is attached before the
-- node is used. The clock is the argument `now`, as in the code. The build is the one without the
-- feature test-real-socket-matrix.
--
-- Not modelled: inside a whole election or heartbeat of Rounds no handler of the same node runs (the
-- pieces of an election are separate, and handlers can run between them), while a commit has as a
-- parameter what the node becomes in the meantime; the notification of the members after a commit,
-- which does not change the sender, and what other tasks do during it; the codecs that macros derive; of a TCP tunnel, the
-- frames that come before their lease, the hidden reader of a datagram channel, the waiting claims and
-- the heartbeat; sockets, TLS, tasks and timers, and with them the other networks, the dialling of
-- tunnels, the stream and proxy layers and the other handlers of the SN service.
pub mod Base
pub mod Identity
pub mod Net
pub mod Endpoint
pub mod Types
pub mod NatType
pub mod NatProbe
pub mod PeerManager
pub mod Service
pub mod TunnelManager
pub mod Rendezvous
pub mod Tcp
pub mod ConnectPlan
pub mod Directory
pub mod Examples
