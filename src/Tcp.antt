-- ===== src/Tcp.antt =====
-- p2p-frame/src/networks/tcp: the parts of a TCP tunnel that need no socket. The numbers of its
-- connections, channels and requests are 32-bit words.
pub mod Correlation
pub mod Matching
pub mod Lease
pub mod LeaseEvents
pub mod Accounts
pub mod Steps
pub mod Confirmations
pub mod Drained
pub mod Claims
pub mod Ids
pub mod Conflicts
pub mod Crossing
use bucky_p2p.Types.{TunnelId}

abbrev pub TcpConnId : Type 0
TcpConnId = TunnelId

abbrev pub TcpLeaseSeq : Type 0
TcpLeaseSeq = TunnelId

abbrev pub TcpChannelId : Type 0
TcpChannelId = TunnelId
