-- ===== src/Network.antt =====
-- The simulated network: network.go.
pub mod Partition
pub mod Router
pub mod Events
pub mod Send
mod Tests
