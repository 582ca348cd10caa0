-- ===== src/Core.antt =====
-- The crate yds-core: path mapping, exclusions, configuration.
pub mod PathMapping
pub mod Config
pub mod Exclusions
pub mod Validation
