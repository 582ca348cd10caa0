-- ===== src/Examples.antt =====
-- Tests, and the theorems at concrete inputs.
pub mod Data
mod Core
mod Plan
mod Live
mod Engine
mod Run
mod Scan
mod Client
mod Lock
mod Schedule
mod Status
