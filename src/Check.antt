-- ===== src/Check.antt =====
-- check/check.go: the history-aware safety checker.
pub mod Ledger
pub mod History
pub mod Records
pub mod Cluster
mod Tests
