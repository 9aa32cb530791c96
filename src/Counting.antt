-- ===== src/Counting.antt =====
-- src/capture.rs, src/commands.rs: `CURRENT_STREAMS` along the calls.
pub mod Primitive
pub mod Write
pub mod Process
pub mod Reach
