-- ===== src/Sync/Engine/Requests.antt =====
-- What the phases of a root ask of the remote side, for any property of events that holds of those
-- that ask for no change there.
pub mod Uploads
pub mod Around
pub mod Root
pub mod Run
use ya_disk_sync.Base.{
  ℕ, zero, suc, Bool, true, false, Option, none, some, List, [], ◌∷◌, In, max, length,
}
use ya_disk_sync.Base.Result.{Result, ok, err}
use ya_disk_sync.Base.Text.{Text}
use ya_disk_sync.Core.Config.{SyncRootConfig}
use ya_disk_sync.Disk.{YandexDiskError}
use ya_disk_sync.Scanner.{LocalPath, LocalFileEntry, LocalDirectoryEntry}
use ya_disk_sync.State.{SyncRunSummary}
use ya_disk_sync.Sync.LivePlan.{LiveScanPlan, DeletedLocalSubtree}
use ya_disk_sync.Sync.Plan.{Platform, SyncPlanOperation}
use ya_disk_sync.Sync.Summary.{RootSyncSummary}
use ya_disk_sync.Sync.Engine.World.{
  SyncError, Event, repository_call, operation_started, cancellation_read, metadata_read,
  remote_delete, remote_create, remote_upload, staging_removed, run_started, lock_requested,
  question, Environment, M,
}
use ya_disk_sync.Sync.Engine.Emits.{Emits, emits_rules}
use ya_disk_sync.Sync.Engine.Tasks.{Emits-join_all}
use ya_disk_sync.Sync.Engine.Roots.{persist_root_progress, record_deleted_subtree}
use ya_disk_sync.Sync.Engine.Directories.{
  RootState, record_found, register_missing, fill_batch, start_directory, start_directories,
  after_create, directory_outcome, run_directories, create_rounds, create_groups,
  apply_create_directories,
}

-- An event that asks for no change on the remote side.
abbrev pub IsQuiet : Event → Type 0
IsQuiet (remote_delete path) = ⊥
IsQuiet (remote_create path) = ⊥
IsQuiet (remote_upload f) = ⊥
IsQuiet (repository_call c) = Unit
IsQuiet (operation_started o) = Unit
IsQuiet cancellation_read = Unit
IsQuiet (metadata_read path) = Unit
IsQuiet (staging_removed path) = Unit
IsQuiet (run_started trigger) = Unit
IsQuiet (lock_requested owner) = Unit
IsQuiet (question q) = Unit

module _ {P : Event → Type 0} (quiet : (e : Event) → IsQuiet e → P e) (env : Environment)
    (run_id : ℕ) (base_summary : SyncRunSummary) where
  pub persist-Emits :
      (s : RootSyncSummary) → Emits P (persist_root_progress env run_id base_summary s)
  unfolding persist_root_progress
  persist-Emits s = search (emits_rules, quiet)

  pub subtree-Emits :
      (subtree : DeletedLocalSubtree) (s : RootSyncSummary)
      → Emits P (record_deleted_subtree env run_id subtree s)
  unfolding record_deleted_subtree
  subtree-Emits subtree s = search (emits_rules, quiet) depth 12

  found-Emits :
      (first : M (Unit {0})) (s : RootSyncSummary) (r : Option DeletedLocalSubtree × LiveScanPlan)
      → Emits P first
      → Emits P (record_found env run_id base_summary first s r)
  unfolding record_found
  found-Emits first s (none, plan) h = search emits_rules
  found-Emits first s (some subtree, plan) h =
      search (emits_rules, subtree-Emits, persist-Emits) depth 12

  pub register-Emits :
      (first : M (Unit {0})) (p : LocalPath) (relative remote : Text) (s : RootState)
      → Emits P first
      → Emits P (register_missing env run_id base_summary first p relative remote s)
  unfolding register_missing
  register-Emits first p relative remote s h = search (emits_rules, quiet, found-Emits)

  fill-Emits :
      (n : ℕ) (pending batch : List LocalDirectoryEntry) (s : RootState)
      → Emits P (fill_batch env run_id base_summary n pending batch s)
  unfolding fill_batch
  fill-Emits n [] batch s = search emits_rules
  fill-Emits n (d ∷ pending) batch s =
      search (emits_rules, register-Emits, fill-Emits n pending) depth 12

  module _ (platform : Platform) (root : SyncRootConfig)
      (creates : (path : Text) → P (remote_create path)) where
    start-Emits :
        (d : LocalDirectoryEntry)
        → Emits P (start_directory env run_id base_summary platform root d)
    unfolding start_directory
    start-Emits d = search (emits_rules, quiet, creates) depth 12

    starts-Emits :
        (ds : List LocalDirectoryEntry)
        → Emits P (start_directories env run_id base_summary platform root ds)
    unfolding start_directories
    starts-Emits [] = search emits_rules
    starts-Emits (d ∷ ds) = let rest = starts-Emits ds in search (emits_rules, start-Emits) depth 12

    created-Emits :
        (d : LocalDirectoryEntry) (id : ℕ) (s : RootState) (r : Result (Unit {0}) YandexDiskError)
        → Emits P (after_create env run_id base_summary platform root (d, id) s r)
    unfolding after_create
    created-Emits d id s (ok u) = search (emits_rules, quiet) depth 12
    created-Emits d id s (err e) = search (emits_rules, quiet, persist-Emits) depth 14

    directory-Emits :
        (task : LocalDirectoryEntry × ℕ) (s : RootState)
        → Emits P (directory_outcome env run_id base_summary platform root task s)
    unfolding directory_outcome
    directory-Emits (d, id) s = search (emits_rules, created-Emits) depth 12

    run_directories-Emits :
        (batch : List LocalDirectoryEntry) (s : RootState)
        → Emits P (run_directories env run_id base_summary platform root batch s)
    unfolding run_directories
    run_directories-Emits batch s =
        search (emits_rules, quiet, starts-Emits, Emits-join_all, directory-Emits) depth 12

    rounds-Emits :
        (n concurrency : ℕ) (pending : List LocalDirectoryEntry) (s : RootState)
        → Emits P (create_rounds env run_id base_summary platform root n concurrency pending s)
    unfolding create_rounds
    rounds-Emits zero concurrency pending s = search emits_rules
    rounds-Emits (suc n) concurrency [] s = search emits_rules
    rounds-Emits (suc n) concurrency (d ∷ pending) s =
        search (emits_rules, quiet, fill-Emits, run_directories-Emits, rounds-Emits n concurrency)
          depth 14

    groups-Emits :
        (concurrency : ℕ) (groups : List (ℕ × List LocalDirectoryEntry)) (s : RootState)
        → Emits P (create_groups env run_id base_summary platform root concurrency groups s)
    unfolding create_groups
    groups-Emits concurrency [] s = search emits_rules
    groups-Emits concurrency ((depth, ds) ∷ groups) s =
        search (emits_rules, rounds-Emits, groups-Emits concurrency groups) depth 12

    pub Emits-apply_create_directories :
        (concurrency : ℕ) (plan : List SyncPlanOperation) (s : RootState)
        → Emits P
            (apply_create_directories env run_id base_summary platform root concurrency plan s)
    unfolding apply_create_directories
    Emits-apply_create_directories concurrency plan s = search groups-Emits
