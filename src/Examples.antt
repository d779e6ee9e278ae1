-- ===== src/Examples.antt =====
-- The theorems of the other modules at concrete inputs.
pub mod Samples
pub mod Addresses
pub mod Requests
pub mod Nat
pub mod Owners
pub mod Routes
pub mod Probes
pub mod Claims
pub mod Peers
pub mod Tunnels
