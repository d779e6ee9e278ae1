-- ===== src/Directory.antt =====
-- The distributed directory of serving nodes (p2p-frame/src/sn/directory): the owner membership, the
-- control plane with its log of sessions, the routes, the store over both, and the election.
pub mod Membership
pub mod ControlPlane
pub mod Routes
pub mod Store
pub mod Election
