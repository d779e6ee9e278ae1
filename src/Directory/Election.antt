-- ===== src/Directory/Election.antt =====
-- p2p-frame/src/sn/directory/election.rs: the election of the leader of the owners, and the
-- replication of session changes.
pub mod Node
pub mod Rounds
pub mod Terms
pub mod Votes
pub mod Quorum
pub mod TwoLeaders
