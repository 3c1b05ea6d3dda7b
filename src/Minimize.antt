-- ===== src/Minimize.antt =====
-- Schedule minimisation: minimize/minimize.go.
pub mod Simpler
pub mod Reduce
pub mod Shrink
pub mod Preserved
pub mod Guided
pub mod Minimal
mod Tests
