-- ===== src/Examples.antt =====
-- The theorems at concrete inputs.
pub mod World
mod Config
mod Encode
mod Capture
mod Dispatch
mod Stats
mod Webhook
mod Cluster
mod Commands
mod Markers
mod Client
mod Settings
