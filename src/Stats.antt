-- ===== src/Stats.antt =====
-- src/stats.rs: counters, the record of a stream, and the log.
pub mod Counters
pub mod Streams
pub mod Log
pub mod Drops
pub mod Snapshot
pub mod Logging
