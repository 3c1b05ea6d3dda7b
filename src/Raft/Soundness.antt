-- ===== src/Raft/Soundness.antt =====
-- raft/node.go: no transition of a sound node panics, and every transition leaves a sound node.
pub mod Replay
pub mod Invariant
pub mod Applying
pub mod Committing
pub mod Sending
pub mod Electing
pub mod Responding
pub mod Storing
pub mod Matching
pub mod Appending
pub mod Installing
pub mod Changing
pub mod Compacting
pub mod Stepping
pub mod Writing
pub mod Following
pub mod Handling
pub mod Durable
pub mod Terms
