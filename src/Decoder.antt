-- ===== src/Decoder.antt =====
-- agent/tools/decode-events.py: the decoder that turns a captured stream into records.
pub mod Event
pub mod Frames
pub mod Agreement
pub mod Framing
mod Tests
