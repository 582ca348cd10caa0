-- ===== src/Sync/Engine/Roots.antt =====
-- How a root's outcome is recorded: progress, failures and the final status.
use ya_disk_sync.Base.{ℕ, ◌++◌, none, some, List, [], ◌∷◌, if◌then◌else◌}
use ya_disk_sync.Base.Words.{add_i64, is_positive_i64}
use ya_disk_sync.Base.Text.{Text, text}
use ya_disk_sync.Core.Config.{SyncRootConfig}
use ya_disk_sync.State.{SyncRunSummary}
use ya_disk_sync.Sync.Summary.{
  RootStatus, root_succeeded, root_partial_failed, root_failed, root_cancelled, root_skipped,
  RootSyncSummary, is_failed, add_root_summary,
}
use ya_disk_sync.Base.Exec.{pure, ◌>>=◌, ◌>>◌}
use ya_disk_sync.Sync.Engine.World.{
  Environment, M, call, is_cancelled, mark_failed, mark_skipped, update_sync_root_status,
  update_run_progress, mark_subtree_deleted, append_operations_succeeded,
}
use ya_disk_sync.Sync.LivePlan.{DeletedLocalSubtree}

module _ (env : Environment) where
  unfoldable pub persist_root_progress : ℕ → SyncRunSummary → RootSyncSummary → M (Unit {0})
  persist_root_progress run_id base_summary root_summary =
      call env (update_run_progress run_id (add_root_summary base_summary root_summary))

  -- The body that `fail_root` and `partial_fail_root` share but for the status.
  unfoldable pub fail_root_as :
      RootStatus → SyncRootConfig → RootSyncSummary → Text → Text → Text → M RootSyncSummary
  fail_root_as status root root_summary operation error_kind error_message = do
    call env (
        mark_failed (record {
          root_id = root.id;
          local_path = some root.local_path;
          remote_path = some root_summary.canonical_remote_path;
          operation = operation;
          error_kind = error_kind;
          error_message = error_message;
          retry_count = 0;
          next_retry_at_utc = none;
        }))
    call env (update_sync_root_status root.id status (some error_message))
    pure (record root_summary {
      status = status;
      failed_files = add_i64 root_summary.failed_files 1;
      error_summary = some error_message;
    })

  unfoldable pub fail_root :
      SyncRootConfig → RootSyncSummary → Text → Text → Text → M RootSyncSummary
  unfolding fail_root_as
  fail_root = fail_root_as root_failed

  unfoldable pub partial_fail_root :
      SyncRootConfig → RootSyncSummary → Text → Text → Text → M RootSyncSummary
  unfolding fail_root_as
  partial_fail_root = fail_root_as root_partial_failed

  unfoldable pub finish_as : SyncRootConfig → RootSyncSummary → M RootSyncSummary
  finish_as root root_summary =
      if is_failed root_summary.status
      then (do
        call env (update_sync_root_status root.id root_failed root_summary.error_summary)
        pure root_summary)
      else if is_positive_i64 root_summary.failed_files
      then (do
        call env (update_sync_root_status root.id root_partial_failed root_summary.error_summary)
        pure (record root_summary { status = root_partial_failed }))
      else (do
        call env (update_sync_root_status root.id root_succeeded none)
        pure (record root_summary { status = root_succeeded }))

  unfoldable pub finish_root_cancelled_or_failed :
      SyncRootConfig → RootSyncSummary → M RootSyncSummary
  unfolding finish_as
  finish_root_cancelled_or_failed root root_summary = do
    cancelled ← is_cancelled env
    if cancelled
        then (do
          call env
              (update_sync_root_status root.id root_cancelled (some (text "sync run cancelled")))
          pure (record root_summary {
            status = root_cancelled;
            error_summary = some (text "sync run cancelled");
          }))
        else finish_as root root_summary

  unfoldable pub record_deleted_subtree :
      ℕ → DeletedLocalSubtree → RootSyncSummary → M RootSyncSummary
  record_deleted_subtree run_id subtree root_summary = do
    call env
        (mark_subtree_deleted subtree.root_id subtree.relative_prefix subtree.remote_prefix run_id)
    call env (
        mark_skipped (record {
          root_id = subtree.root_id;
          local_path = subtree.relative_prefix;
          relative_path = some subtree.relative_prefix;
          remote_path = some subtree.remote_prefix;
          reason_code = text "local_subtree_deleted";
          reason_details = some (text "local subtree deleted during sync preparation or execution");
          size_bytes = none;
        }))
    call env (
        append_operations_succeeded (
          record {
            run_id = run_id;
            operation = text "skipped_local_subtree_deleted";
            local_path = some subtree.relative_prefix;
            remote_path = some subtree.remote_prefix;
          }
          ∷ []))
    pure (record root_summary { skipped_files = add_i64 root_summary.skipped_files 1 })

  unfoldable pub record_deleted_subtrees :
      ℕ → List DeletedLocalSubtree → RootSyncSummary → M RootSyncSummary
  record_deleted_subtrees run_id [] root_summary = pure root_summary
  record_deleted_subtrees run_id (subtree ∷ subtrees) root_summary = do
    counted ← record_deleted_subtree run_id subtree root_summary
    record_deleted_subtrees run_id subtrees counted

  -- The end of a root whose local directory is missing: none of its phases runs.
  unfoldable pub record_missing_root : SyncRootConfig → RootSyncSummary → M RootSyncSummary
  record_missing_root root root_summary =
      let message = text "local root is missing or not a directory: " ++ root.local_path in
      do
        call env (
            mark_skipped (record {
              root_id = root.id;
              local_path = root.local_path;
              relative_path = none;
              remote_path = some root_summary.canonical_remote_path;
              reason_code = text "missing_root";
              reason_details = some message;
              size_bytes = none;
            }))
        call env (update_sync_root_status root.id root_skipped (some message))
        pure (record root_summary {
          status = root_skipped;
          skipped_files = 1;
          error_summary = some message;
        })
