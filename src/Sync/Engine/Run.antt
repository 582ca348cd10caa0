-- ===== src/Sync/Engine/Run.antt =====
-- `execute_run`: the loop of a run over the enabled roots.
pub mod Once
pub mod Lock
pub mod Outcome
use mathlib.Core.Option
use ya_disk_sync.Base.{
  ℕ, ◌-◌, Bool, true, false, ◌&&◌, not, Option, none, some, List, [], ◌∷◌, ◌++◌, map, if◌then◌else◌,
}
use ya_disk_sync.Base.Result.{Result, ok, err}
use ya_disk_sync.Base.Words.{add_i64}
use ya_disk_sync.Base.Text.{Text, text}
use ya_disk_sync.Core.Config.{AppConfig, SyncRootConfig}
use ya_disk_sync.Core.PathMapping.{PathMappingError, canonical_remote_path}
use ya_disk_sync.Core.Validation.{ConfigValidationError, Outside, validate_config}
use ya_disk_sync.Disk.{YandexDiskError, error_to_string}
use ya_disk_sync.State.{SyncRunTrigger, SyncRunStatus, SyncRunSummary}
use ya_disk_sync.Sync.Plan.{Platform}
use ya_disk_sync.Sync.Summary.{
  root_succeeded, RootSyncSummary, add_root_summary, status_from_summary,
}
use ya_disk_sync.Base.Exec.{pure, fail, ◌>>=◌, ◌>>◌}
use ya_disk_sync.Sync.Engine.World.{
  SyncError, config_invalid, already_running, path_mapping_error, Environment, M, ask, attempt,
  lift, call, is_cancelled, is_stopped, local_files, acquire_lock, begin_run, about_disk,
  about_snapshot, or_state_error, upsert_sync_root, repair_interrupted_runs, finish_run,
  release_run_lock,
}
use ya_disk_sync.Sync.Engine.ErrorText.{sync_error_to_string}
use ya_disk_sync.Sync.Engine.Roots.{record_missing_root}
use ya_disk_sync.Sync.Engine.Execution.{RootExecution, execute_root}

-- Without the list of planned operations, which nothing reads before the report is returned.
pub record SyncRunReport : Type 0 where
  pub run_id : ℕ
  pub status : SyncRunStatus
  pub summary : SyncRunSummary
  pub roots : List RootSyncSummary

-- Of a root whose local directory is missing there is a summary only.
pub data RootRun : Type 0 where
  missing_root : RootSyncSummary → RootRun
  executed : RootExecution → RootRun

unfoldable pub with_error : Text → SyncRunReport → SyncRunReport
with_error message report = record report {
  summary = record report.summary { error_summary = some message };
}

-- `add_root_summary(&mut report.summary, &root_summary); report.roots.push(root_summary)`
unfoldable pub push_root : RootSyncSummary → SyncRunReport → SyncRunReport
push_root root_summary report = record report {
  summary = add_root_summary report.summary root_summary;
  roots = report.roots ++ root_summary ∷ [];
}

unfoldable pub push_execution : RootExecution → SyncRunReport → SyncRunReport
push_execution x report = elim x.run_error [
  | none ↦ push_root x.root_summary report
  | some message ↦ push_root x.root_summary (with_error message report)
]

-- What is left of the quota after the root.
unfoldable pub consume : Option ℕ → Option ℕ → Option ℕ
consume (some consumed) (some available) = some (available - consumed)
consume _ available = available

-- `total.zip(used).map(|(total, used)| total.saturating_sub(used))`
unfoldable pub free_space : Option ℕ × Option ℕ → Option ℕ
free_space (some total, some used) = some (total - used)
free_space _ = none

unfoldable pub root_summary_at :
    SyncRootConfig → Result Text PathMappingError → Result RootSyncSummary SyncError
root_summary_at root (ok path) = ok (record {
  root_id = root.id;
  local_path = root.local_path;
  canonical_remote_path = path;
  status = root_succeeded;
  scanned_files = 0;
  uploaded_files = 0;
  updated_files = 0;
  deleted_files = 0;
  skipped_files = 0;
  failed_files = 0;
  bytes_uploaded = 0;
  error_summary = none;
})
root_summary_at root (err source) = err (path_mapping_error root.id source)

unfoldable pub initial_root_summary : AppConfig → SyncRootConfig → Result RootSyncSummary SyncError
initial_root_summary config root = root_summary_at root (
    canonical_remote_path config.instance_config.remote_root root.local_path
      root.remote_path_override)

-- The run's error, if any, and its report, which keeps what was added before the error.
abbrev pub RunOutcome : Type 0
RunOutcome = Result (Unit {0}) SyncError × SyncRunReport

module _ (env : Environment) (platform : Platform) (config : AppConfig) where
  unfoldable pub disk_outcome :
      SyncRunReport → Result (Option ℕ × Option ℕ) YandexDiskError → Option ℕ × SyncRunReport
  disk_outcome report (ok quota) = (free_space quota, report)
  disk_outcome report (err error) = (none, with_error (error_to_string error) report)

  unfoldable pub available_remote_bytes : SyncRunReport → M (Option ℕ × SyncRunReport)
  available_remote_bytes report = do
    answer ← ask about_disk env.disk_info
    pure (disk_outcome report answer)

  -- One round of the loop over the enabled roots, after the cancellation check.
  unfoldable pub run_root : ℕ → Bool → SyncRunSummary → Option ℕ → SyncRootConfig → M RootRun
  run_root run_id force_remote_rescan base_summary available root = do
    root_summary ← lift (initial_root_summary config root)
    call env (
        upsert_sync_root root.id root.local_path config.instance_config.remote_root
          root_summary.canonical_remote_path root.enabled)
    files ← local_files env
    if files.is_dir (platform.path_from root.local_path)
        then (do
          x ←
              execute_root env platform config.sync run_id root base_summary available
                force_remote_rescan root_summary
          pure (executed x))
        else (do missing ← record_missing_root env root root_summary; pure (missing_root missing))

  unfoldable pub after_root :
      SyncRunReport
      → Option ℕ
      → (Option ℕ → SyncRunReport → M RunOutcome)
      → Result RootRun SyncError
      → M RunOutcome
  after_root report available next (err e) = pure (err e, report)
  after_root report available next (ok (missing_root root_summary)) =
      next available (push_root root_summary report)
  after_root report available next (ok (executed x)) = do
    stopped ← is_stopped env x.result.should_stop
    if stopped
        then pure (ok tt, push_execution x report)
        else next (consume x.result.bytes_uploaded available) (push_execution x report)

  unfoldable pub run_roots : Bool → List SyncRootConfig → Option ℕ → SyncRunReport → M RunOutcome
  run_roots force_remote_rescan [] available report = pure (ok tt, report)
  run_roots force_remote_rescan (root ∷ roots) available report =
      if root.enabled
      then (do
        cancelled ← is_cancelled env
        if cancelled then pure (ok tt, with_error (text "sync run cancelled") report) else (do
          outcome ←
              attempt (run_root report.run_id force_remote_rescan report.summary available root)
          after_root report available (run_roots force_remote_rescan roots) outcome))
      else run_roots force_remote_rescan roots available report

  unfoldable pub execute_run : Bool → SyncRunReport → M RunOutcome
  execute_run force_remote_rescan report = do
    start ← available_remote_bytes report
    run_roots force_remote_rescan config.roots start.0 start.1
