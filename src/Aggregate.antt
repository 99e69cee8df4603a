-- ===== src/Aggregate.antt =====
-- agent/ai/experiments/event-time-v1/src/aggregate.py: the features of a time bucket.
pub mod Paths
pub mod Perm
pub mod Files
pub mod Features
pub mod Buckets
pub mod Grouping
pub mod Rows
pub mod Permissions
pub mod Pids
pub mod Tallies
pub mod Shape
mod Tests
