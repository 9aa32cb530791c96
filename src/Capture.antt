-- ===== src/Capture.antt =====
-- src/capture.rs: the capture path.
pub mod Mirror
pub mod Process
pub mod Gate
pub mod Boundary
pub mod Flush
pub mod Feedback
