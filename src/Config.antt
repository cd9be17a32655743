-- ===== src/Config.antt =====
-- internal/config: the configuration file as decoded from TOML, checked and turned into interfaces.
pub mod Types
pub mod Fields
pub mod Overlap
pub mod Options
pub mod Plugins
pub mod Interfaces
pub mod File
pub mod Advertise
