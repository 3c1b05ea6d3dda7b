-- ===== src/Decision.antt =====
-- decision/: semantic choices, their recording on a tape, and exact replay.
pub mod Choice
pub mod Tape
pub mod Replay
pub mod Control
pub mod Keys
pub mod Seeded
mod Tests
