-- ===== src/Unlinks.antt =====
-- agent/ai/experiments/event-time-v1/src/temporal_unlinks.py: trailing windows over an audit of unlinks.
pub mod Audit
pub mod Windows
pub mod Features
pub mod Sorting
pub mod Placing
pub mod Direct
pub mod History
mod Tests
