-- ===== src/Raft.antt =====
-- The Raft reference state machine of raft/.
pub mod Types
pub mod Membership
pub mod Log
pub mod Commit
pub mod Election
pub mod Replication
pub mod Step
pub mod Restore
pub mod Safety
pub mod Soundness
pub mod Observe
mod Tests
