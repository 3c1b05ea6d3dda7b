-- ===== src/Raft/Safety.antt =====
-- Properties of raft/node.go that no input can break.
pub mod Terms
