-- ===== src/Sim.antt =====
-- The deterministic simulator: queue.go, simulator.go and rand.go.
pub mod Queue
pub mod Scheduler
pub mod Runs
pub mod Random
pub mod Canonical
mod Tests
mod RunTests
