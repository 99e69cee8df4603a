-- ===== src/Detector.antt =====
-- agent/ai/experiments/event-time-v1/src/detect2.py: the detector that judges time buckets of a live
-- stream.
pub mod Event
pub mod State
pub mod Buckets
pub mod Stream
pub mod Pending
pub mod Conservation
mod Tests
