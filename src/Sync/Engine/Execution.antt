-- ===== src/Sync/Engine/Execution.antt =====
-- `execute_root`: the phases of a root, one after the other.
use ya_disk_sync.Base.{
  ℕ, Bool, true, false, Option, none, some, List, ◌++◌, ltb, length, if◌then◌else◌,
}
use ya_disk_sync.Base.Result.{Result, ok, err}
use ya_disk_sync.Base.Text.{Text, text}
use ya_disk_sync.Core.Config.{SyncConfig, SyncRootConfig}
use ya_disk_sync.Disk.{YandexDiskError, kind_as_str, quota_exceeded}
use ya_disk_sync.Scanner.{ScanReport}
use ya_disk_sync.State.{SyncRunSummary}
use ya_disk_sync.Sync.LivePlan.{LiveScanPlan, from_scan_report}
use ya_disk_sync.Sync.Plan.{
  Platform, SyncPlanOperation, build_root_plan, upload_bytes, local_remote_collision,
}
use ya_disk_sync.Sync.Summary.{RootSyncSummary, is_stop_error}
use ya_disk_sync.Base.Exec.{pure, ◌>>=◌, ◌>>◌}
use ya_disk_sync.Sync.Engine.World.{
  Environment, M, ask, call, is_stopped, local_files, about_scan, set_root_remote_inventory_status,
}
use ya_disk_sync.Sync.Engine.Roots.{
  fail_root, partial_fail_root, persist_root_progress, record_deleted_subtrees,
  finish_root_cancelled_or_failed,
}
use ya_disk_sync.Sync.Engine.RemoteInventory.{RemoteInventorySnapshot, remote_inventory}
use ya_disk_sync.Sync.Engine.Directories.{RootState, apply_create_directories}
use ya_disk_sync.Sync.Engine.Uploads.{UploadPhaseResult, apply_uploads}
use ya_disk_sync.Sync.Engine.Deletions.{apply_deletes}
use ya_disk_sync.Sync.Engine.Staging.{record_scan_findings, cleanup_staging_files}

pub record RootExecutionResult : Type 0 where
  pub should_stop : Bool
  pub bytes_uploaded : Option ℕ

-- What a root leaves: its result, its summary, and the error that it writes over the run's.
pub record RootExecution : Type 0 where
  pub result : RootExecutionResult
  pub root_summary : RootSyncSummary
  pub run_error : Option Text

-- `RootExecutionResult::stop(should_stop)`
unfoldable pub stop : Bool → RootSyncSummary → RootExecution
stop should_stop root_summary = record {
  result = record { should_stop = should_stop; bytes_uploaded = none };
  root_summary = root_summary;
  run_error = none;
}

unfoldable pub uploaded : Bool → ℕ → RootSyncSummary → RootExecution
uploaded should_stop bytes_uploaded root_summary = record {
  result = record { should_stop = should_stop; bytes_uploaded = some bytes_uploaded };
  root_summary = root_summary;
  run_error = none;
}

-- The quota that is left, if the uploads exceed it.
unfoldable pub exceeded_quota : Option ℕ → ℕ → Option ℕ
exceeded_quota none planned = none
exceeded_quota (some available) planned = if ltb available planned then some available else none

unfoldable pub quota_message : Platform → ℕ → ℕ → Text
quota_message platform planned available =
    text "planned upload size "
    ++ (platform.to_string planned
        ++ (text " bytes exceeds available Yandex Disk quota "
            ++ (platform.to_string available ++ text " bytes")))

unfoldable pub count_scanned : LiveScanPlan → ScanReport → RootSyncSummary → RootSyncSummary
count_scanned live_plan report root_summary = record root_summary {
  scanned_files = length live_plan.files;
  skipped_files = length report.skipped;
  failed_files = length report.failed;
}

module _ (env : Environment) (platform : Platform) (sync_config : SyncConfig) (run_id : ℕ)
    (root : SyncRootConfig) (base_summary : SyncRunSummary) where
  unfoldable pub delete_phase :
      RemoteInventorySnapshot → UploadPhaseResult → RootState → M RootExecution
  delete_phase snapshot uploads s = do
    deleted ←
        apply_deletes env run_id root base_summary s.live_plan snapshot.resources
          snapshot.from_cache s.root_summary
    finished ← finish_root_cancelled_or_failed env root deleted.1
    persist_root_progress env run_id base_summary finished
    pure (uploaded deleted.0 uploads.bytes_uploaded finished)

  unfoldable pub upload_phase :
      ScanReport → List SyncPlanOperation → RemoteInventorySnapshot → RootState → M RootExecution
  upload_phase report root_plan snapshot s = do
    outcome ←
        apply_uploads env run_id base_summary platform sync_config.upload_concurrency
          sync_config.large_file_name_size_only_min_bytes root_plan s
    cleanup_staging_files env report.files
    stopped ← is_stopped env outcome.0.should_stop
    if stopped
        then (do
          finished ← finish_root_cancelled_or_failed env root outcome.1.root_summary
          pure (uploaded true outcome.0.bytes_uploaded finished))
        else delete_phase snapshot outcome.0 outcome.1

  unfoldable pub create_phase :
      ScanReport → List SyncPlanOperation → RemoteInventorySnapshot → RootState → M RootExecution
  create_phase report root_plan snapshot s = do
    created ←
        apply_create_directories env run_id base_summary platform root
          sync_config.create_directory_concurrency root_plan s
    stopped ← is_stopped env created.0
    if stopped
        then (do
          cleanup_staging_files env report.files
          finished ← finish_root_cancelled_or_failed env root created.1.root_summary
          pure (stop true finished))
        else upload_phase report root_plan snapshot created.1

  unfoldable pub fail_quota : ℕ → ℕ → RootSyncSummary → M RootExecution
  fail_quota planned available root_summary = do
    let message = quota_message platform planned available
    failed ←
        fail_root env root root_summary (text "quota_check") (kind_as_str quota_exceeded) message
    pure (record (stop true failed) { run_error = some message })

  unfoldable pub after_inventory :
      Option ℕ
      → ScanReport
      → RootState
      → Result RemoteInventorySnapshot YandexDiskError
      → M RootExecution
  after_inventory available report s (ok snapshot) =
      let root_plan =
        build_root_plan platform root s.root_summary.canonical_remote_path s.live_plan
          snapshot.resources in
      elim (exceeded_quota available (upload_bytes root_plan)) [
        | some left ↦ fail_quota (upload_bytes root_plan) left s.root_summary
        | none ↦ create_phase report root_plan snapshot s
      ]
  after_inventory available report s (err error) = do
    call env (
        set_root_remote_inventory_status (record {
          root_id = root.id;
          is_complete = false;
          snapshot_completed_at_utc = none;
          snapshot_expires_at_utc = none;
          resource_count = 0;
          last_error = some error.message;
        }))
    if is_stop_error error.kind
        then (do
          failed ←
              fail_root env root s.root_summary (text "remote_inventory") (kind_as_str error.kind)
                error.message
          pure (stop true failed))
        else (do
          failed ←
              partial_fail_root env root s.root_summary (text "remote_inventory")
                (kind_as_str error.kind) error.message
          pure (stop false failed))

  unfoldable pub fail_collision : Text → RootSyncSummary → M RootExecution
  fail_collision message root_summary = do
    failed ← fail_root env root root_summary (text "plan") (text "path_collision") message
    pure (stop false failed)

  unfoldable pub inventory_phase : Option ℕ → Bool → ScanReport → RootState → M RootExecution
  inventory_phase available force_remote_rescan report s = do
    answer ←
        remote_inventory env platform sync_config.remote_inventory_cache_ttl_hours root.id
          s.root_summary.canonical_remote_path s.live_plan force_remote_rescan
    after_inventory available report s answer

  unfoldable pub after_scan :
      Option ℕ → Bool → RootSyncSummary → Result ScanReport Text → M RootExecution
  after_scan available force_remote_rescan root_summary (err message) = do
    failed ← fail_root env root root_summary (text "scan") (text "scanner") message
    pure (stop false failed)
  after_scan available force_remote_rescan root_summary (ok report) = do
    record_scan_findings env platform report
    files ← local_files env
    let live_plan = from_scan_report files (platform.path_from root.local_path) report
    recorded ←
        record_deleted_subtrees env run_id live_plan.deleted_subtrees
          (count_scanned live_plan report root_summary)
    persist_root_progress env run_id base_summary recorded
    elim (local_remote_collision live_plan.directories live_plan.files) [
      | some message ↦ fail_collision message recorded
      | none ↦
          inventory_phase available force_remote_rescan report
            (record { live_plan = live_plan; root_summary = recorded })
    ]

  unfoldable pub execute_root : Option ℕ → Bool → RootSyncSummary → M RootExecution
  execute_root available_remote_bytes force_remote_rescan root_summary = do
    answer ←
        ask (about_scan root.id)
          (λ events. env.scan_root events root root_summary.canonical_remote_path)
    after_scan available_remote_bytes force_remote_rescan root_summary answer
