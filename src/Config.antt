-- ===== src/Config.antt =====
-- src/myloware/config.
pub mod ProviderModes
