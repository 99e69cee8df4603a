-- ===== src/Evaluation.antt =====
-- agent/ai/experiments/event-time-v1/src/evaluate_event_time.py and feature_schema.py: the choice of a
-- threshold and the holdout of whole sessions. The forest of scikit-learn is a parameter, and a
-- score is the bits of a float that is not negative, which are in the order of the floats.
pub mod Scores
pub mod Cutoff
pub mod Data
pub mod Nested
pub mod Isolation
pub mod Candidate
pub mod Sets
pub mod Split
mod Tests
