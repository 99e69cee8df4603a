-- ===== src/Samples.antt =====
-- agent/tools/generate-handoff-samples.py: the generator of sample frames.
pub mod Framing
pub mod Struct
pub mod Records
pub mod Health
pub mod Syscalls
mod Tests
pub mod Endpoints
pub mod Sizes
pub mod Ranges
pub mod Connections
