-- ===== src/Sync/Engine.antt =====
-- crates/yds-sync/src/lib.rs, `SyncEngine`: the phases of a run as actions on a world that answers
-- every call from the history of all calls made so far.
mod World
mod Emits
mod Roots
pub mod ErrorText
pub mod RemoteInventory
pub mod Tasks
pub mod Directories
pub mod Uploads
mod Deletions
pub mod Staging
pub mod Execution
pub mod Run
pub mod Returns
pub mod Requests
pub mod Order
pub mod Rounds
pub mod Unlisted
pub mod DeletionSafety
pub mod DeletionErrors
pub mod Finish
pub mod MissingRoot
unfoldable pub use World.*
unfoldable pub use Roots.*
unfoldable pub use Deletions.*
