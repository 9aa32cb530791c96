-- ===== src/Dispatch.antt =====
-- src/dispatch.rs: the bounded queue, its ordered fallback and the worker.
pub mod Queue
pub mod Worker
pub mod Order
pub mod Fifo
pub mod Envelope
pub mod Stale
