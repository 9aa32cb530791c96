-- ===== src/Cluster.antt =====
-- src/cluster.rs: pinning a node's streams to a slot that it owns.
pub mod Hash
pub mod Refusals
pub mod Tags
pub mod Repin
pub mod Owned
