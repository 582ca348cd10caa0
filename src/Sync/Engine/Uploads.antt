-- ===== src/Sync/Engine/Uploads.antt =====
-- `apply_uploads`: the second phase of a root, in batches of tasks.
use ya_disk_sync.Base.{
  ℕ, zero, suc, max, Bool, true, false, ◌||◌, not, Option, none, some, List, [], ◌∷◌, nat_eq,
  length, if◌then◌else◌,
}
use ya_disk_sync.Base.Result.{Result, ok, err}
use ya_disk_sync.Base.Words.{add_i64, u64_to_i64, saturating_add}
use ya_disk_sync.Base.Text.{Text, text}
use ya_disk_sync.Disk.{
  YandexDiskError, kind_as_str, is_persistent_uploader_conflict, is_local_upload_source_unavailable,
}
use ya_disk_sync.Scanner.{LocalFileEntry, fingerprint_as_str}
use ya_disk_sync.State.{
  SyncRunSummary, OperationStatus, FileStateStatus, FileStateRecord, file_type,
}
use ya_disk_sync.Sync.LivePlan.{is_deleted_relative_path}
use ya_disk_sync.Sync.Batch.{Upload, take_upload_batch}
use ya_disk_sync.Sync.Plan.{Platform, SyncPlanOperation, uploads}
use ya_disk_sync.Sync.Summary.{root_failed, is_stop_error}
use ya_disk_sync.Base.Exec.{pure, ◌>>=◌, ◌>>◌}
use ya_disk_sync.Sync.Engine.World.{
  Environment, M, call, append_operation_started, is_cancelled, request, outcome_of, ask,
  about_local_files, remote_upload, finish_operation, mark_failed, mark_skipped, upsert_file_state,
  upsert_remote_resource,
}
use ya_disk_sync.Sync.Engine.Roots.{persist_root_progress}
use ya_disk_sync.Sync.Engine.Tasks.{join_all}
use ya_disk_sync.Sync.Engine.Directories.{RootState, register_missing}

pub record UploadPhaseResult : Type 0 where
  pub should_stop : Bool
  pub bytes_uploaded : ℕ

pub record UploadTaskFailure : Type 0 where
  pub error_kind : Text
  pub error_message : Text
  pub should_stop : Bool
  pub skip_reason_code : Option Text

unfoldable pub upload_failure : YandexDiskError → UploadTaskFailure
upload_failure error = record {
  error_kind = kind_as_str error.kind;
  error_message = error.message;
  should_stop = is_stop_error error.kind;
  skip_reason_code =
      if is_persistent_uploader_conflict error
      then some (text "remote_uploader_content_conflict")
      else if is_local_upload_source_unavailable error
      then some (text "local_file_unavailable")
      else none;
}

abbrev pub cancelled_failure : UploadTaskFailure
cancelled_failure = record {
  error_kind = text "cancelled";
  error_message = text "sync run cancelled";
  should_stop = true;
  skip_reason_code = none;
}

unfoldable pub upload_result :
    Result (Unit {0}) YandexDiskError → Result (Unit {0}) UploadTaskFailure
upload_result (ok u) = ok u
upload_result (err error) = err (upload_failure error)

unfoldable pub same_time : Option ℕ → Option ℕ → Bool
same_time none none = true
same_time (some a) (some b) = nat_eq a b
same_time _ _ = false

-- The size and the modification time that the file has now, if it can be read.
unfoldable pub file_status_after_upload : Option (ℕ × Option ℕ) → LocalFileEntry → FileStateStatus
file_status_after_upload none file = FileStateStatus.synced_changed_during_upload
file_status_after_upload (some (len, current_mtime_ns)) file =
    if not (nat_eq len file.size_bytes) || not (same_time current_mtime_ns file.mtime_ns)
    then FileStateStatus.synced_changed_during_upload
    else FileStateStatus.synced

unfoldable pub file_state_record :
    Platform → LocalFileEntry → ℕ → FileStateStatus → Option Text → FileStateRecord
file_state_record platform file run_id status last_error = record {
  root_id = file.root_id;
  local_path = platform.stable_string file.local_path;
  relative_path = file.relative_path;
  remote_path = file.remote_path;
  normalized_remote_path = file.normalized_remote_path;
  size_bytes = u64_to_i64 file.size_bytes;
  mtime_ns = file.mtime_ns;
  ctime_ns = file.ctime_ns;
  fingerprint_kind = fingerprint_as_str file.fingerprint.kind;
  fingerprint_value = some file.fingerprint.value;
  full_sha256 = file.fingerprint.full_sha256;
  remote_etag = none;
  remote_md5 = file.fingerprint.local_md5;
  last_run_id = some run_id;
  status = status;
  last_error = last_error;
}

unfoldable pub upload_operation : Bool → Text
upload_operation is_update = if is_update then text "update_file" else text "upload_file"

-- What the phase changes: the root's state and the bytes uploaded so far.
abbrev pub UploadState : Type 0
UploadState = RootState × ℕ

-- A task: the upload and its operation.
abbrev pub UploadTask : Type 0
UploadTask = Upload × ℕ

module _ (env : Environment) (run_id : ℕ) (base_summary : SyncRunSummary)
    (platform : Platform) where
  unfoldable pub upload_task : LocalFileEntry → M (Result (Unit {0}) UploadTaskFailure)
  upload_task file = do
    cancelled ← outcome_of (λ events. env.task_cancelled events file)
    if cancelled then pure (err cancelled_failure) else (do
      answer ← outcome_of (λ events. env.upload_source events file)
      pure (upload_result answer))

  unfoldable pub start_upload : Upload → M UploadTask
  start_upload (file, is_update) = do
    operation_id ← append_operation_started env (record {
      run_id = run_id;
      operation = upload_operation is_update;
      local_path = some (platform.stable_string file.local_path);
      remote_path = some file.remote_path;
    })
    request (remote_upload file)
    pure ((file, is_update), operation_id)

  unfoldable pub start_uploads : List Upload → RootState → M (List UploadTask × RootState)
  start_uploads [] s = pure ([], s)
  start_uploads ((file, is_update) ∷ batch) s =
      if is_deleted_relative_path s.live_plan file.relative_path then start_uploads batch s else (do
        found ←
            register_missing env run_id base_summary (pure tt) file.local_path file.relative_path
              file.remote_path s
        if found.0 then start_uploads batch found.1 else (do
          task ← start_upload (file, is_update)
          more ← start_uploads batch found.1
          pure (task ∷ more.0, more.1)))

  unfoldable pub record_upload : UploadTask → UploadState → M (Bool × UploadState)
  record_upload ((file, is_update), operation_id) (s, bytes_uploaded) = do
    call env (finish_operation operation_id OperationStatus.succeeded none none)
    current ← ask about_local_files (λ events. env.local_metadata events file.local_path)
    call env (
        upsert_file_state
          (file_state_record platform file run_id (file_status_after_upload current file) none))
    call env (
        upsert_remote_resource (record {
          root_id = file.root_id;
          remote_path = file.remote_path;
          resource_type = file_type;
          size_bytes = some (u64_to_i64 file.size_bytes);
          mtime_remote = none;
          remote_md5 = file.fingerprint.local_md5;
        }))
    let summary = s.root_summary
    let counted =
        if is_update
        then record summary { updated_files = add_i64 summary.updated_files 1 }
        else record summary { uploaded_files = add_i64 summary.uploaded_files 1 }
    let measured = record counted {
      bytes_uploaded = add_i64 counted.bytes_uploaded (u64_to_i64 file.size_bytes);
    }
    persist_root_progress env run_id base_summary measured
    pure (
      false,
      (record s { root_summary = measured }, saturating_add bytes_uploaded file.size_bytes),
    )

  unfoldable pub record_upload_skipped :
      Text → UploadTaskFailure → UploadTask → UploadState → M (Bool × UploadState)
  record_upload_skipped reason_code failure ((file, is_update), operation_id) (s, bytes_uploaded) =
      do
        call env (
            finish_operation operation_id OperationStatus.cancelled (some reason_code)
              (some failure.error_message))
        call env (
            mark_skipped (record {
              root_id = file.root_id;
              local_path = platform.stable_string file.local_path;
              relative_path = some file.relative_path;
              remote_path = some file.remote_path;
              reason_code = reason_code;
              reason_details = some failure.error_message;
              size_bytes = some (u64_to_i64 file.size_bytes);
            }))
        call env (
            upsert_file_state (
              file_state_record platform file run_id FileStateStatus.skipped
                (some failure.error_message)))
        let summary = s.root_summary
        let counted = record summary { skipped_files = add_i64 summary.skipped_files 1 }
        persist_root_progress env run_id base_summary counted
        pure (false, (record s { root_summary = counted }, bytes_uploaded))

  unfoldable pub record_upload_failed :
      UploadTaskFailure → UploadTask → UploadState → M (Bool × UploadState)
  record_upload_failed failure ((file, is_update), operation_id) (s, bytes_uploaded) = do
    call env (
        finish_operation operation_id OperationStatus.failed (some failure.error_kind)
          (some failure.error_message))
    call env (
        mark_failed (record {
          root_id = file.root_id;
          local_path = some (platform.stable_string file.local_path);
          remote_path = some file.remote_path;
          operation = upload_operation is_update;
          error_kind = failure.error_kind;
          error_message = failure.error_message;
          retry_count = 0;
          next_retry_at_utc = none;
        }))
    let counted = record s.root_summary {
      failed_files = add_i64 s.root_summary.failed_files 1;
      error_summary = some failure.error_message;
    }
    persist_root_progress env run_id base_summary counted
    if failure.should_stop
        then pure (
          true,
          (record s { root_summary = record counted { status = root_failed } }, bytes_uploaded),
        )
        else pure (false, (record s { root_summary = counted }, bytes_uploaded))

  -- A failure that is no missing subtree.
  unfoldable pub record_upload_failure :
      UploadTaskFailure → UploadTask → UploadState → M (Bool × UploadState)
  record_upload_failure failure task s = elim failure.skip_reason_code [
    | some reason_code ↦ record_upload_skipped reason_code failure task s
    | none ↦ record_upload_failed failure task s
  ]

  unfoldable pub after_upload :
      UploadTask → UploadState → Result (Unit {0}) UploadTaskFailure → M (Bool × UploadState)
  after_upload task s (ok _) = record_upload task s
  after_upload task s (err failure) = do
    let file = task.0.0
    found ←
        register_missing env run_id base_summary
          (call env (
            finish_operation task.1 OperationStatus.cancelled (some (text "local_subtree_deleted"))
              (some (text "local subtree deleted during sync run"))))
          file.local_path file.relative_path file.remote_path s.0
    if found.0
        then pure (false, (found.1, s.1))
        else record_upload_failure failure task (found.1, s.1)

  unfoldable pub upload_outcome : UploadTask → UploadState → M (Bool × UploadState)
  upload_outcome task s = do result ← upload_task task.0.0; after_upload task s result

  -- The tasks of a batch, from their start to the last outcome.
  unfoldable pub run_uploads : List Upload → UploadState → M (Bool × UploadState)
  run_uploads batch (s, bytes_uploaded) = do
    started ← start_uploads batch s
    join_all env upload_outcome started.0 (started.1, bytes_uploaded)

  module _ (upload_concurrency large_threshold : ℕ) where
    -- One round of the loop, with the batch that was taken and what stays pending after it.
    unfoldable pub upload_round :
        List Upload → (UploadState → M (Bool × UploadState)) → UploadState → M (Bool × UploadState)
    upload_round [] next s = pure (false, s)
    upload_round (u ∷ batch) next s = do
      outcome ← run_uploads (u ∷ batch) s
      if outcome.0 then pure (true, outcome.1) else next outcome.1

    -- The first number bounds the rounds.
    unfoldable pub upload_rounds : ℕ → List Upload → UploadState → M (Bool × UploadState)
    upload_rounds zero pending s = pure (false, s)
    upload_rounds (suc n) [] s = pure (false, s)
    upload_rounds (suc n) (u ∷ pending) s = do
      cancelled ← is_cancelled env
      let taken = take_upload_batch (u ∷ pending) upload_concurrency large_threshold
      if cancelled then pure (true, s) else upload_round taken.0 (upload_rounds n taken.1) s

  unfoldable pub apply_uploads :
      ℕ → ℕ → List SyncPlanOperation → RootState → M (UploadPhaseResult × RootState)
  apply_uploads upload_concurrency large_threshold root_plan s = do
    let pending = uploads root_plan
    let limit = max upload_concurrency 1
    outcome ← upload_rounds limit large_threshold (length pending) pending (s, 0)
    pure (record { should_stop = outcome.0; bytes_uploaded = outcome.1.1 }, outcome.1.0)
