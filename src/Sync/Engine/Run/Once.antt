-- ===== src/Sync/Engine/Run/Once.antt =====
-- `run_once`: one run, from the check of the configuration to the release of the lock.
use ya_disk_sync.Base.{
  ℕ, Bool, true, false, ◌||◌, Option, map, none, some, List, [], ◌∷◌, ◌++◌, if◌then◌else◌,
}
use ya_disk_sync.Base.Result.{Result, ok, err}
use ya_disk_sync.Base.Words.{add_i64}
use ya_disk_sync.Base.Text.{Text, text}
use ya_disk_sync.Core.Config.{AppConfig, SyncRootConfig}
use ya_disk_sync.Core.Validation.{ConfigValidationError, Report, Outside, validate_config}
use ya_disk_sync.State.{SyncRunTrigger, SyncRunStatus, SyncRunSummary}
use ya_disk_sync.Sync.Plan.{Platform}
use ya_disk_sync.Sync.Summary.{RootStatus, RootSyncSummary, status_from_summary, empty_summary}
use ya_disk_sync.Base.Exec.{pure, fail, ◌>>=◌, ◌>>◌}
use ya_disk_sync.Sync.Engine.World.{
  SyncError, config_invalid, already_running, Environment, M, ask, attempt, lift, call,
  is_cancelled, local_files, acquire_lock, begin_run, about_snapshot, or_state_error,
  repair_interrupted_runs, finish_run, release_run_lock,
}
use ya_disk_sync.Sync.Engine.ErrorText.{sync_error_to_string}
use ya_disk_sync.Sync.Engine.Run.{SyncRunReport, RunOutcome, with_error, execute_run}

-- The age from which a lock counts as stale is known to the database only.
pub record SyncRunOptions : Type 0 where
  pub trigger : SyncRunTrigger
  pub lock_owner : Text
  pub force_remote_rescan : Bool

pub record MigrationRunOptions : Type 0 where
  pub lock_owner : Text
  pub force_remote_rescan : Bool

pub record MigrationRootSummary : Type 0 where
  pub root_id : Text
  pub local_path : Text
  pub canonical_remote_path : Text
  pub legacy_remote_paths : List Text
  pub status : RootStatus
  pub scanned_files : ℕ
  pub adopted_files : ℕ
  pub moved_resources : ℕ
  pub uploaded_files : ℕ
  pub updated_files : ℕ
  pub deleted_files : ℕ
  pub skipped_files : ℕ
  pub failed_files : ℕ
  pub bytes_uploaded : ℕ
  pub error_summary : Option Text

-- Without the list of the operations, which the report of the run leaves out as well.
pub record MigrationRunReport : Type 0 where
  pub run_id : ℕ
  pub status : SyncRunStatus
  pub summary : SyncRunSummary
  pub roots : List MigrationRootSummary

unfoldable pub root_from_migration : MigrationRootSummary → RootSyncSummary
root_from_migration root = record {
  root_id = root.root_id;
  local_path = root.local_path;
  canonical_remote_path = root.canonical_remote_path;
  status = root.status;
  scanned_files = root.scanned_files;
  uploaded_files = root.uploaded_files;
  updated_files = root.updated_files;
  deleted_files = root.deleted_files;
  skipped_files = root.skipped_files;
  failed_files = root.failed_files;
  bytes_uploaded = root.bytes_uploaded;
  error_summary = root.error_summary;
}

unfoldable pub sync_report_from_migration : MigrationRunReport → SyncRunReport
sync_report_from_migration report = record {
  run_id = report.run_id;
  status = report.status;
  summary = report.summary;
  roots = map root_from_migration report.roots;
}

abbrev pub is_migration : SyncRunTrigger → Bool
is_migration SyncRunTrigger.migration = true
is_migration _ = false

unfoldable pub join_messages : List ConfigValidationError → Text
join_messages [] = []
join_messages (e ∷ []) = e.message
join_messages (e ∷ f ∷ es) = e.message ++ (text "; " ++ join_messages (f ∷ es))

unfoldable pub config_outcome : Report → Result (Unit {0}) SyncError
unfolding join_messages
config_outcome [] = ok tt
config_outcome (e ∷ es) = err (config_invalid (join_messages (e ∷ es)))

unfoldable pub ensure_valid_config : Outside → AppConfig → Result (Unit {0}) SyncError
unfolding config_outcome
ensure_valid_config outside config = config_outcome (validate_config outside config)

-- `get_or_insert` of the message of a cancelled run.
unfoldable pub or_cancelled : SyncRunReport → SyncRunReport
or_cancelled report = elim report.summary.error_summary [
  | none ↦ with_error (text "sync run cancelled") report
  | some message ↦ report
]

unfoldable pub failed_report : SyncError → SyncRunReport → SyncRunReport
failed_report error report = record report {
  status = SyncRunStatus.failed;
  summary = record report.summary {
    failed_files = add_i64 report.summary.failed_files 1;
    error_summary = some (sync_error_to_string error);
  };
}

-- The report that the database gives a number to.
unfoldable pub new_report : ℕ → SyncRunReport
new_report run_id = record {
  run_id = run_id;
  status = SyncRunStatus.running;
  summary = empty_summary;
  roots = [];
}

module _ (env : Environment) (platform : Platform) (config : AppConfig) where
  unfoldable pub has_no_snapshot : SyncRootConfig → M Bool
  unfolding or_state_error
  has_no_snapshot root = do
    files ← local_files env
    if files.is_dir (platform.path_from root.local_path)
        then (do
          answer ← ask (about_snapshot root.id) (λ events. env.has_snapshot_for_root events root.id)
          known ← lift (or_state_error answer)
          pure (if known then false else true))
        else pure false

  unfoldable pub should_auto_migrate : List SyncRootConfig → M Bool
  should_auto_migrate [] = pure false
  should_auto_migrate (root ∷ roots) =
      if root.enabled
      then (do found ← has_no_snapshot root; if found then pure true else should_auto_migrate roots)
      else should_auto_migrate roots

  -- The status that the run ends with.
  unfoldable pub conclude : RunOutcome → M SyncRunReport
  conclude (err error, report) = pure (failed_report error report)
  conclude (ok _, report) = do
    cancelled ← is_cancelled env
    pure (
        if cancelled
        then record (or_cancelled report) { status = SyncRunStatus.cancelled }
        else record report { status = status_from_summary report.summary report.roots })

  -- The run is finished and the lock released, before either error goes on.
  unfoldable pub close_run : Text → SyncRunReport → M SyncRunReport
  close_run lock_owner report = do
    finish_result ← attempt (call env (finish_run report.run_id report.status report.summary))
    release_result ← attempt (call env (release_run_lock lock_owner))
    lift finish_result
    lift release_result
    pure report

  -- What happens while the lock is held.
  unfoldable pub run_locked : SyncRunOptions → M SyncRunReport
  run_locked options = do
    call env repair_interrupted_runs
    run_id ← begin_run env options.trigger
    execution ←
        execute_run env platform config
          (options.force_remote_rescan || config.sync.force_remote_rescan) (new_report run_id)
    report ← conclude execution
    close_run options.lock_owner report

  unfoldable pub run_with_lock : SyncRunOptions → M SyncRunReport
  run_with_lock options = do
    acquired ← acquire_lock env options.lock_owner
    if acquired then run_locked options else fail already_running

  -- Whether the run is left to the migration.
  unfoldable pub must_migrate : SyncRunOptions → M Bool
  must_migrate options =
      if is_migration options.trigger then pure false else should_auto_migrate config.roots

  -- `migration` is `MigrationEngine::run_once`, any action at all on the same surroundings.
  unfoldable pub run_once :
      (MigrationRunOptions → M MigrationRunReport) → Outside → SyncRunOptions → M SyncRunReport
  run_once migration outside options = do
    lift (ensure_valid_config outside config)
    migrate ← must_migrate options
    if migrate
        then (do
          migrated ← migration (record {
            lock_owner = options.lock_owner;
            force_remote_rescan = options.force_remote_rescan;
          })
          pure (sync_report_from_migration migrated))
        else run_with_lock options
