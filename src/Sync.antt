-- ===== src/Sync.antt =====
-- The crate yds-sync.
pub mod LivePlan
pub mod Inventory
pub mod Deletes
pub mod Plan
pub mod Batch
pub mod Summary
pub mod Engine
