-- ===== src/Sync/Engine/Directories.antt =====
-- `apply_create_directories`: the first phase of a root.
use ya_disk_sync.Base.{
  ℕ, zero, suc, ◌+◌, max, Bool, true, false, Option, none, some, List, [], ◌∷◌, ◌++◌, nat_eq, ltb,
  length, if◌then◌else◌,
}
use ya_disk_sync.Base.Result.{Result, ok, err}
use ya_disk_sync.Base.Words.{add_i64}
use ya_disk_sync.Base.Text.{Text, text, is_empty, count_slashes}
use ya_disk_sync.Core.Config.{SyncRootConfig}
use ya_disk_sync.Disk.{YandexDiskError, kind_as_str, error_to_string}
use ya_disk_sync.Scanner.{LocalPath, LocalDirectoryEntry}
use ya_disk_sync.State.{SyncRunSummary, OperationStatus, DirectoryStateStatus, dir_type}
use ya_disk_sync.Sync.LivePlan.{
  LiveScanPlan, DeletedLocalSubtree, is_deleted_relative_path, register_missing_local_path,
}
use ya_disk_sync.Sync.Plan.{Platform, SyncPlanOperation, create_directories}
use ya_disk_sync.Sync.Summary.{root_failed, RootSyncSummary, is_stop_error}
use ya_disk_sync.Base.Exec.{pure, ◌>>=◌, ◌>>◌}
use ya_disk_sync.Sync.Engine.World.{
  Environment, M, call, append_operation_started, is_cancelled, request, outcome_of, local_files,
  remote_create, finish_operation, mark_failed, upsert_directory_state, upsert_remote_resource,
}
use ya_disk_sync.Sync.Engine.Roots.{persist_root_progress, record_deleted_subtree}
use ya_disk_sync.Sync.Engine.Tasks.{join_all}

-- What the phases of a root change.
pub record RootState : Type 0 where
  pub live_plan : LiveScanPlan
  pub root_summary : RootSyncSummary

unfoldable pub relative_depth : Text → ℕ
relative_depth relative_path = if is_empty relative_path then 0 else count_slashes relative_path + 1

-- `by_depth.entry(depth).or_default().push(directory)`
unfoldable pub insert_by_depth :
    ℕ
    → LocalDirectoryEntry
    → List (ℕ × List LocalDirectoryEntry)
    → List (ℕ × List LocalDirectoryEntry)
insert_by_depth depth d [] = (depth, d ∷ []) ∷ []
insert_by_depth depth d ((e, ds) ∷ groups) =
    let rest = insert_by_depth depth d groups in
    if nat_eq depth e
    then (e, ds ++ d ∷ []) ∷ groups
    else if ltb depth e
    then (depth, d ∷ []) ∷ (e, ds) ∷ groups
    else (e, ds) ∷ rest

-- The loop that fills the map `by_depth`.
unfoldable pub group_by_depth :
    LiveScanPlan
    → List LocalDirectoryEntry
    → List (ℕ × List LocalDirectoryEntry)
    → List (ℕ × List LocalDirectoryEntry)
unfolding relative_depth insert_by_depth
group_by_depth live_plan [] groups = groups
group_by_depth live_plan (d ∷ ds) groups = group_by_depth live_plan ds (
    if is_deleted_relative_path live_plan d.relative_path
    then groups
    else insert_by_depth (relative_depth d.relative_path) d groups)

module _ (env : Environment) (run_id : ℕ) (base_summary : SyncRunSummary) where
  -- A subtree that was just found missing is recorded, after the given action.
  unfoldable pub record_found :
      M (Unit {0})
      → RootSyncSummary
      → Option DeletedLocalSubtree × LiveScanPlan
      → M (Bool × RootState)
  record_found first root_summary (none, live_plan) =
      pure (false, record { live_plan = live_plan; root_summary = root_summary })
  record_found first root_summary (some subtree, live_plan) = do
    first
    counted ← record_deleted_subtree env run_id subtree root_summary
    persist_root_progress env run_id base_summary counted
    pure (true, record { live_plan = live_plan; root_summary = counted })

  -- Whether the path turned out to lie in a subtree that is missing now.
  unfoldable pub register_missing :
      M (Unit {0}) → LocalPath → Text → Text → RootState → M (Bool × RootState)
  register_missing first local_path relative_path remote_path s = do
    files ← local_files env
    record_found first s.root_summary
        (register_missing_local_path files s.live_plan local_path relative_path remote_path)

  -- The inner loop: the batch, and what stays pending.
  unfoldable pub fill_batch :
      ℕ
      → List LocalDirectoryEntry
      → List LocalDirectoryEntry
      → RootState
      → M ((List LocalDirectoryEntry × List LocalDirectoryEntry) × RootState)
  fill_batch concurrency [] batch s = pure ((batch, []), s)
  fill_batch concurrency (d ∷ pending) batch s =
      if ltb (length batch) concurrency
      then (if is_deleted_relative_path s.live_plan d.relative_path
          then fill_batch concurrency pending batch s
          else (do
            found ← register_missing (pure tt) d.local_path d.relative_path d.remote_path s
            fill_batch concurrency pending (if found.0 then batch else batch ++ d ∷ []) found.1))
      else pure ((batch, d ∷ pending), s)

  module _ (platform : Platform) (root : SyncRootConfig) where
    unfoldable pub start_directory : LocalDirectoryEntry → M (LocalDirectoryEntry × ℕ)
    start_directory d = do
      operation_id ← append_operation_started env (record {
        run_id = run_id;
        operation = text "create_directory";
        local_path = some (platform.stable_string d.local_path);
        remote_path = some d.remote_path;
      })
      request (remote_create d.remote_path)
      pure (d, operation_id)

    unfoldable pub start_directories : List LocalDirectoryEntry → M (List (LocalDirectoryEntry × ℕ))
    start_directories [] = pure []
    start_directories (d ∷ ds) = do
      task ← start_directory d
      tasks ← start_directories ds
      pure (task ∷ tasks)

    unfoldable pub after_create :
        LocalDirectoryEntry × ℕ
        → RootState
        → Result (Unit {0}) YandexDiskError
        → M (Bool × RootState)
    after_create (d, operation_id) s (ok _) = do
      call env (finish_operation operation_id OperationStatus.succeeded none none)
      call env (
          upsert_directory_state (record {
            root_id = d.root_id;
            local_path = platform.stable_string d.local_path;
            relative_path = d.relative_path;
            remote_path = d.remote_path;
            normalized_remote_path = d.normalized_remote_path;
            last_run_id = some run_id;
            status = DirectoryStateStatus.synced;
            last_error = none;
          }))
      call env (
          upsert_remote_resource (record {
            root_id = d.root_id;
            remote_path = d.remote_path;
            resource_type = dir_type;
            size_bytes = none;
            mtime_remote = none;
            remote_md5 = none;
          }))
      pure (false, s)
    after_create (d, operation_id) s (err error) = do
      call env (
          finish_operation operation_id OperationStatus.failed (some (kind_as_str error.kind))
            (some error.message))
      call env (
          mark_failed (record {
            root_id = root.id;
            local_path = some (platform.stable_string d.local_path);
            remote_path = some d.remote_path;
            operation = text "create_directory";
            error_kind = kind_as_str error.kind;
            error_message = error.message;
            retry_count = 0;
            next_retry_at_utc = none;
          }))
      let counted = record s.root_summary {
        failed_files = add_i64 s.root_summary.failed_files 1;
        error_summary = some error.message;
      }
      persist_root_progress env run_id base_summary counted
      if is_stop_error error.kind
          then pure (
            true,
            record s {
              root_summary = record counted {
                status = root_failed;
                error_summary = some (error_to_string error);
              };
            },
          )
          else pure (false, record s { root_summary = counted })

    unfoldable pub directory_outcome : LocalDirectoryEntry × ℕ → RootState → M (Bool × RootState)
    directory_outcome task s = do
      result ← outcome_of (λ events. env.create_directory events task.0.remote_path)
      after_create task s result

    -- The tasks of a batch, from their start to the last outcome.
    unfoldable pub run_directories : List LocalDirectoryEntry → RootState → M (Bool × RootState)
    run_directories batch s = do
      tasks ← start_directories batch
      join_all env directory_outcome tasks s

    -- The loop over the directories of one depth; the first number bounds its rounds.
    unfoldable pub create_rounds :
        ℕ → ℕ → List LocalDirectoryEntry → RootState → M (Bool × RootState)
    create_rounds zero concurrency pending s = pure (false, s)
    create_rounds (suc n) concurrency [] s = pure (false, s)
    create_rounds (suc n) concurrency (d ∷ pending) s = do
      cancelled ← is_cancelled env
      if cancelled then pure (true, s) else (do
        filled ← fill_batch concurrency (d ∷ pending) [] s
        next ← run_directories filled.0.0 filled.1
        if next.0 then pure (true, next.1) else create_rounds n concurrency filled.0.1 next.1)

    unfoldable pub create_groups :
        ℕ → List (ℕ × List LocalDirectoryEntry) → RootState → M (Bool × RootState)
    create_groups concurrency [] s = pure (false, s)
    create_groups concurrency ((depth, ds) ∷ groups) s = do
      next ← create_rounds (length ds) concurrency ds s
      if next.0 then pure (true, next.1) else create_groups concurrency groups next.1

    unfoldable pub apply_create_directories :
        ℕ → List SyncPlanOperation → RootState → M (Bool × RootState)
    apply_create_directories create_directory_concurrency root_plan s =
        create_groups (max create_directory_concurrency 1)
          (group_by_depth s.live_plan (create_directories root_plan) []) s
