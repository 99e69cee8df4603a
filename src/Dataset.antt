-- ===== src/Dataset.antt =====
-- agent/ai/experiments/event-time-v1/src/build_event_time_dataset.py: labelled rows from the
-- diagnostic log of the detector and a timeline.
pub mod Sorting
pub mod Timeline
pub mod Log
pub mod Rows
pub mod Sweep
pub mod Active
pub mod Direct
pub mod Recorded
pub mod Classes
pub mod Accounts
pub mod Spans
pub mod Labels
mod Tests
