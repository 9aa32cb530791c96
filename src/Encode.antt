-- ===== src/Encode.antt =====
-- src/capture.rs: the pure part, from an event to the fields of its stream entry.
pub mod Sanitize
pub mod Retention
pub mod Classes
pub mod Json
pub mod Base64
pub mod Event
pub mod Document
pub mod Fields
