-- ===== src/Sync/Engine/Deletions.antt =====
-- `apply_deletes`: the last phase of a root.
use ya_disk_sync.Base.{ℕ, Bool, true, false, none, some, List, [], ◌∷◌, if◌then◌else◌}
use ya_disk_sync.Base.Result.{Result, ok, err}
use ya_disk_sync.Base.Words.{add_i64}
use ya_disk_sync.Base.Text.{Text, text}
use ya_disk_sync.Core.Config.{SyncRootConfig}
use ya_disk_sync.Disk.{
  ResourceType, file_resource, directory_resource, ResourceMetadata, YandexDiskError, kind_as_str,
  is_not_found, error_to_string,
}
use ya_disk_sync.State.{SyncRunSummary, OperationStatus}
use ya_disk_sync.Sync.LivePlan.{LiveScanPlan}
use ya_disk_sync.Sync.Inventory.{Inventory}
use ya_disk_sync.Sync.Deletes.{RemoteDeleteOperation, collect_coalesced_delete_operations}
use ya_disk_sync.Sync.Summary.{root_failed, RootSyncSummary, is_stop_error}
use ya_disk_sync.Base.Exec.{pure, ◌>>=◌, ◌>>◌}
use ya_disk_sync.Sync.Engine.World.{
  Environment, M, call, append_operation_started, is_cancelled, read_metadata, delete_permanently,
  finish_operation, mark_failed, mark_deleted, mark_directory_deleted,
  delete_remote_resource_subtree,
}
use ya_disk_sync.Sync.Engine.Roots.{persist_root_progress}

-- Whether the run must stop, and the summary of the root.
abbrev pub Outcome : Type 0
Outcome = Bool × RootSyncSummary

module _ (env : Environment) (run_id : ℕ) (root : SyncRootConfig)
    (base_summary : SyncRunSummary) where
  unfoldable pub finish_succeeded : ℕ → M (Unit {0})
  finish_succeeded operation_id =
      call env (finish_operation operation_id OperationStatus.succeeded none none)

  -- The common end of both failures: of the check of a cached entry and of the deletion.
  unfoldable pub record_delete_failure :
      ℕ → Text → RemoteDeleteOperation → YandexDiskError → RootSyncSummary → M Outcome
  record_delete_failure operation_id operation delete error root_summary = do
    call env (
        finish_operation operation_id OperationStatus.failed (some (kind_as_str error.kind))
          (some error.message))
    call env (
        mark_failed (record {
          root_id = root.id;
          local_path = none;
          remote_path = some delete.remote_path;
          operation = operation;
          error_kind = kind_as_str error.kind;
          error_message = error.message;
          retry_count = 0;
          next_retry_at_utc = none;
        }))
    let counted = record root_summary {
      failed_files = add_i64 root_summary.failed_files 1;
      error_summary = some error.message;
    }
    persist_root_progress env run_id base_summary counted
    if is_stop_error error.kind
        then pure (
          true,
          record counted { status = root_failed; error_summary = some (error_to_string error) },
        )
        else pure (false, counted)

  unfoldable pub mark_resource_deleted : RemoteDeleteOperation → ResourceType → M (Unit {0})
  mark_resource_deleted delete file_resource =
      call env (mark_deleted delete.root_id delete.relative_path delete.remote_path (some run_id))
  mark_resource_deleted delete directory_resource =
      call env (
        mark_directory_deleted delete.root_id delete.relative_path delete.remote_path (some run_id))

  -- The books after a deletion that took place, or that had nothing to delete.
  unfoldable pub forget_resource : ℕ → RemoteDeleteOperation → M (Unit {0})
  forget_resource operation_id delete = do
    finish_succeeded operation_id
    mark_resource_deleted delete delete.resource_type
    call env (delete_remote_resource_subtree delete.root_id delete.remote_path)

  unfoldable pub after_delete :
      ℕ → RemoteDeleteOperation → RootSyncSummary → Result (Unit {0}) YandexDiskError → M Outcome
  after_delete operation_id delete root_summary (ok _) = do
    forget_resource operation_id delete
    let counted = record root_summary { deleted_files = add_i64 root_summary.deleted_files 1 }
    persist_root_progress env run_id base_summary counted
    pure (false, counted)
  after_delete operation_id delete root_summary (err error) =
      if is_not_found error.kind
      then (do forget_resource operation_id delete; pure (false, root_summary))
      else record_delete_failure operation_id (text "delete_remote") delete error root_summary

  unfoldable pub delete_remote_path : ℕ → RemoteDeleteOperation → RootSyncSummary → M Outcome
  delete_remote_path operation_id delete root_summary = do
    result ← delete_permanently env delete.remote_path
    after_delete operation_id delete root_summary result

  -- The answer to the check of an entry that comes from the cache.
  unfoldable pub after_check :
      ℕ
      → RemoteDeleteOperation
      → RootSyncSummary
      → Result ResourceMetadata YandexDiskError
      → M Outcome
  after_check operation_id delete root_summary (ok _) =
      delete_remote_path operation_id delete root_summary
  after_check operation_id delete root_summary (err error) =
      if is_not_found error.kind
      then (do
        finish_succeeded operation_id
        call env (delete_remote_resource_subtree delete.root_id delete.remote_path)
        pure (false, root_summary))
      else record_delete_failure operation_id (text "delete_remote_metadata_check") delete error
          root_summary

  -- One round of the loop, after the cancellation check.
  unfoldable pub delete_one : Bool → RemoteDeleteOperation → RootSyncSummary → M Outcome
  delete_one inventory_from_cache delete root_summary = do
    operation_id ← append_operation_started env (record {
      run_id = run_id;
      operation = text "delete_remote";
      local_path = none;
      remote_path = some delete.remote_path;
    })
    if inventory_from_cache
        then (do
          answer ← read_metadata env delete.remote_path
          after_check operation_id delete root_summary answer)
        else delete_remote_path operation_id delete root_summary

  unfoldable pub delete_loop : Bool → List RemoteDeleteOperation → RootSyncSummary → M Outcome
  delete_loop from_cache [] root_summary = pure (false, root_summary)
  delete_loop from_cache (delete ∷ deletes) root_summary = do
    cancelled ← is_cancelled env
    if cancelled then pure (true, root_summary) else (do
      outcome ← delete_one from_cache delete root_summary
      if outcome.0 then pure (true, outcome.1) else delete_loop from_cache deletes outcome.1)

  unfoldable pub apply_deletes : LiveScanPlan → Inventory → Bool → RootSyncSummary → M Outcome
  apply_deletes live_plan remote_inventory inventory_from_cache root_summary =
      delete_loop inventory_from_cache
        (collect_coalesced_delete_operations root.id root_summary.canonical_remote_path live_plan
          remote_inventory)
        root_summary
