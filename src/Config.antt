-- ===== src/Config.antt =====
-- src/config: the settings and their loader, in the modules below.
pub mod Types
pub mod Parse
pub mod Keys
pub mod Load
