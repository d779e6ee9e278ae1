-- ===== src/Rendezvous.antt =====
-- The tunnel rendezvous of the SN service: its messages and their validation, and the table of the
-- requests that are under way (p2p-frame/src/sn/protocol/sn.rs, sn/service/rendezvous_state.rs).
pub mod Protocol
pub mod State
pub mod Calls
pub mod Limits
pub mod Lives
pub mod Spared
pub mod Invariant
pub mod Waiters
pub mod Duplicates
pub mod Validation
