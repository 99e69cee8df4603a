-- ===== src/Traces.antt =====
-- agent/ai/bin2traces.py: a capture as histogram traces, one file for each window of a process.
pub mod Convert
pub mod Bounds
pub mod Runs
mod Tests
