-- ===== src/Client.antt =====
-- crates/eventstream-client: the library that reads the streams of the module.
pub mod Entry
pub mod Decode
pub mod RoundTrip
pub mod Batch
pub mod Names
pub mod Topology
pub mod Gaps
pub mod Reader
