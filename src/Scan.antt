-- ===== src/Scan.antt =====
-- The programs of agent/ai/experiments/event-time-v1/src that scan a raw capture for an audit:
-- audit_unlink_buckets.py and audit_network_capture.py.
pub mod Network
pub mod Incomplete
pub mod Npz
pub mod Unlinks
pub mod Balance
pub mod Runs
pub mod Accepted
pub mod Accounts
mod Tests
