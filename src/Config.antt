-- ===== src/Config.antt =====
-- src/config.rs: the configuration surface.
pub mod Error
pub mod Filter
pub mod Glob
pub mod KeyFilter
pub mod SourceDbs
pub mod Overrides
pub mod Names
pub mod Store
