-- ===== src/Markers.antt =====
-- src/markers.rs: gap markers and checkpoints on the control stream.
pub mod Control
pub mod Pending
pub mod Checkpoint
pub mod Handover
