-- ===== src/Vocabulary.antt =====
-- agent/ai/syscall_map.py: the feature numbers of the system calls.
pub mod Assign
pub mod Bounds
mod Tests
