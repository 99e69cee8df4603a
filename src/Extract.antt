-- ===== src/Extract.antt =====
-- agent/ai/experiments/event-time-v1/src/extract.py: windows of each process of a capture, as
-- training records.
pub mod Label
pub mod State
pub mod Flush
pub mod Events
pub mod Windows
pub mod Bounds
pub mod Timeline
mod Tests
