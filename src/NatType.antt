-- ===== src/NatType.antt =====
-- p2p-frame/src/nat_type.rs: what was observed of a NAT, the profile that a peer reports and the
-- bounded prediction of the next external ports.
pub mod Prediction
pub mod Profile
pub mod Ports
pub mod Hints
pub mod Freshness
