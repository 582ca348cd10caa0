-- ===== src/Sync/Engine/World.antt =====
-- The calls of the engine on the state database, the remote side and the cancellation token, and a
-- world that records and answers them.
use ya_disk_sync.Base.{ℕ, Bool, true, Option, List, ◌∷◌, if◌then◌else◌}
use ya_disk_sync.Base.Result.{Result, ok, err}
use ya_disk_sync.Base.Text.{Text}
use ya_disk_sync.Core.PathMapping.{PathMappingError}
use ya_disk_sync.Disk.{ResourceMetadata, YandexDiskError}
use ya_disk_sync.State.{
  SyncRunTrigger, SyncRunStatus, SyncRunSummary, OperationRecord, OperationStatus, FileStateRecord,
  DirectoryStateRecord, RemoteResourceRecord, SkippedItemRecord, FailedItemRecord,
  RootRemoteInventoryStatus,
}
use ya_disk_sync.Sync.Summary.{RootStatus}
use ya_disk_sync.Scanner.{LocalPath, LocalFileEntry, ScanReport}
use ya_disk_sync.Core.Config.{SyncRootConfig}
use ya_disk_sync.Sync.LivePlan.{FileSystem}
use ya_disk_sync.Base.Exec.{Exec, pure, fail}

pub data SyncError : Type 0 where
  config_invalid : Text → SyncError
  already_running : SyncError
  io_error : Text → SyncError
  path_mapping_error : Text → PathMappingError → SyncError
  scanner_error : Text → SyncError
  state_error : Text → SyncError
  yandex_disk_error : YandexDiskError → SyncError
  migration_error : Text → SyncError
  join_error : Text → SyncError

-- The methods of `StateRepository` that a run of a root calls and that return nothing.
pub data RepositoryCall : Type 0 where
  finish_operation : ℕ → OperationStatus → Option Text → Option Text → RepositoryCall
  upsert_directory_state : DirectoryStateRecord → RepositoryCall
  upsert_file_state : FileStateRecord → RepositoryCall
  upsert_remote_resource : RemoteResourceRecord → RepositoryCall
  mark_failed : FailedItemRecord → RepositoryCall
  mark_skipped : SkippedItemRecord → RepositoryCall
  mark_deleted : Text → Text → Text → Option ℕ → RepositoryCall
  mark_directory_deleted : Text → Text → Text → Option ℕ → RepositoryCall
  delete_remote_resource_subtree : Text → Text → RepositoryCall
  mark_subtree_deleted : Text → Text → Text → ℕ → RepositoryCall
  append_operations_succeeded : List OperationRecord → RepositoryCall
  update_sync_root_status : Text → RootStatus → Option Text → RepositoryCall
  update_run_progress : ℕ → SyncRunSummary → RepositoryCall
  set_root_remote_inventory_status : RootRemoteInventoryStatus → RepositoryCall
  replace_remote_resources_for_root : Text → List RemoteResourceRecord → RepositoryCall
  upsert_sync_root : Text → Text → Text → Text → Bool → RepositoryCall
  repair_interrupted_runs : RepositoryCall
  finish_run : ℕ → SyncRunStatus → SyncRunSummary → RepositoryCall
  release_run_lock : Text → RepositoryCall

-- What the engine asks and what changes nothing.
pub data Question : Type 0 where
  about_inventory_status : Text → Question
  about_cached_resources : Text → Question
  about_listing : Text → List Text → Question
  about_local_files : Question
  about_scan : Text → Question
  about_snapshot : Text → Question
  about_time : Question
  about_disk : Question
  about_finished_task : Question

-- A task reads the cancellation token when it runs, which `task_cancelled` answers at its outcome.
-- The requests `remote_create` and `remote_upload` stand where the task starts that makes them.
pub data Event : Type 0 where
  repository_call : RepositoryCall → Event
  operation_started : OperationRecord → Event
  cancellation_read : Event
  metadata_read : Text → Event
  remote_delete : Text → Event
  remote_create : Text → Event
  remote_upload : LocalFileEntry → Event
  staging_removed : LocalPath → Event
  run_started : SyncRunTrigger → Event
  lock_requested : Text → Event
  question : Question → Event

-- An error of the file system; the text is that of the scanner's error with it.
pub record IoError : Type 0 where
  pub is_not_found : Bool
  pub message : Text

-- How the world answers a call after the given history, newest event first: any behaviour of the
-- database, of the remote side and of whoever cancels the run.
pub record Environment : Type 0 where
  pub repository : List Event → RepositoryCall → Result (Unit {0}) Text
  pub operation_id : List Event → OperationRecord → Result ℕ Text
  pub cancelled : List Event → Bool
  pub metadata : List Event → Text → Result ResourceMetadata YandexDiskError
  pub delete_permanently : List Event → Text → Result (Unit {0}) YandexDiskError
  pub create_directory : List Event → Text → Result (Unit {0}) YandexDiskError
  pub upload_source : List Event → LocalFileEntry → Result (Unit {0}) YandexDiskError
  pub list_recursive :
      List Event → Text → List Text → Result (List ResourceMetadata) YandexDiskError
  pub disk_info : List Event → Result (Option ℕ × Option ℕ) YandexDiskError
  pub inventory_status : List Event → Text → Result (Option RootRemoteInventoryStatus) Text
  pub cached_resources : List Event → Text → Result (List RemoteResourceRecord) Text
  pub run_id : List Event → SyncRunTrigger → Result ℕ Text
  pub try_acquire_run_lock : List Event → Text → Result Bool Text
  pub files : List Event → FileSystem
  pub local_metadata : List Event → LocalPath → Option (ℕ × Option ℕ)
  pub remove_file : List Event → LocalPath → Result (Unit {0}) IoError
  pub has_snapshot_for_root : List Event → Text → Result Bool Text
  pub scan_root : List Event → SyncRootConfig → Text → Result ScanReport Text
  pub now : List Event → ℕ
  pub task_cancelled : List Event → LocalFileEntry → Bool
  pub finished_task : List Event → Result ℕ Text

abbrev pub M : Type 0 → Type 0
M A = Exec (List Event) SyncError A

-- The `?` on a call of the state database.
unfoldable pub or_state_error : {A : Type 0} → Result A Text → Result A SyncError
or_state_error (ok a) = ok a
or_state_error (err e) = err (state_error e)

module _ (env : Environment) where
  unfoldable pub call : RepositoryCall → M (Unit {0})
  unfolding or_state_error
  call c events = (or_state_error (env.repository events c), repository_call c ∷ events)

  unfoldable pub append_operation_started : OperationRecord → M ℕ
  unfolding or_state_error
  append_operation_started o events =
      (or_state_error (env.operation_id events o), operation_started o ∷ events)

  unfoldable pub is_cancelled : M Bool
  is_cancelled events = (ok (env.cancelled events), cancellation_read ∷ events)

  -- `should_stop || cancellation.is_cancelled()`
  unfoldable pub is_stopped : Bool → M Bool
  unfolding pure is_cancelled
  is_stopped should_stop = if should_stop then pure true else is_cancelled

  -- A call of the client hands its error on as a value.
  unfoldable pub read_metadata : Text → M (Result ResourceMetadata YandexDiskError)
  read_metadata path events = (ok (env.metadata events path), metadata_read path ∷ events)

  unfoldable pub delete_permanently : Text → M (Result (Unit {0}) YandexDiskError)
  delete_permanently path events =
      (ok (env.delete_permanently events path), remote_delete path ∷ events)

-- An answer as a value.
unfoldable pub ask : {A : Type 0} → Question → (List Event → A) → M A
ask q answer events = (ok (answer events), question q ∷ events)

-- The outcome of a task that has made its request.
unfoldable pub outcome_of : {A : Type 0} → (List Event → A) → M A
outcome_of answer events = (ok (answer events), events)

-- The `?` on a value.
unfoldable pub lift : {A : Type 0} → Result A SyncError → M A
unfolding pure fail
lift (ok a) = pure a
lift (err e) = fail e

-- The outcome as a value, with its error.
unfoldable pub attempt : {A : Type 0} → M A → M (Result A SyncError)
attempt m events = let (r, later) = m events in (ok r, later)

-- A request that a task makes, recorded where the task starts; its answer is read when the task
-- is joined.
unfoldable pub request : Event → M (Unit {0})
request e events = (ok tt, e ∷ events)

module _ (env : Environment) where
  unfoldable pub begin_run : SyncRunTrigger → M ℕ
  unfolding or_state_error
  begin_run trigger events =
      (or_state_error (env.run_id events trigger), run_started trigger ∷ events)

  unfoldable pub acquire_lock : Text → M Bool
  unfolding or_state_error
  acquire_lock owner events =
      (or_state_error (env.try_acquire_run_lock events owner), lock_requested owner ∷ events)

  unfoldable pub local_files : M FileSystem
  unfolding ask
  local_files = ask about_local_files env.files

  unfoldable pub remove_staging : LocalPath → M (Result (Unit {0}) IoError)
  remove_staging path events = (ok (env.remove_file events path), staging_removed path ∷ events)
