-- ===== src/Accounting.antt =====
-- src/capture.rs: `FORWARDED` and `EVENTS_LOST` along the processing of events.
pub mod Auxiliary
pub mod Tags
pub mod Write
pub mod Mirror
pub mod Settle
pub mod Process
pub mod Batch
