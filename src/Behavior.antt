-- ===== src/Behavior.antt =====
-- agent/ai/experiments/event-time-v1/src/behavior_memory.py: the offline advisory replay that ties
-- an open of a credential file to a later connect of the same task or of its verified descendants.
pub mod State
pub mod Replay
pub mod Tasks
pub mod Forks
pub mod Regex
pub mod Credential
pub mod Destination
pub mod Event
pub mod Activity
pub mod Observe
pub mod Invariant
pub mod Advisories
pub mod Stream
pub mod History
pub mod Resets
pub mod Run
mod Tests
