-- ===== src/Sync/Summary.antt =====
-- crates/yds-sync/src/lib.rs: the summary of a root, its sum over a run, and the status of the run.
pub mod Status
use ya_disk_sync.Base.{
  ℕ, Bool, true, false, ◌||◌, Option, none, some, List, [], ◌∷◌, if◌then◌else◌, any,
}
use ya_disk_sync.Base.Words.{add_i64, is_positive_i64}
use ya_disk_sync.Base.Text.{Text}
use ya_disk_sync.State.{SyncRunStatus, SyncRunSummary}
use ya_disk_sync.Disk.{YandexDiskErrorKind, auth_unavailable, quota_exceeded, critical}

-- The strings ROOT_STATUS_…, which are the only values of a root's status.
pub data RootStatus : Type 0 where
  root_succeeded root_skipped root_partial_failed root_failed root_cancelled : RootStatus

pub record RootSyncSummary : Type 0 where
  pub root_id : Text
  pub local_path : Text
  pub canonical_remote_path : Text
  pub status : RootStatus
  pub scanned_files : ℕ
  pub uploaded_files : ℕ
  pub updated_files : ℕ
  pub deleted_files : ℕ
  pub skipped_files : ℕ
  pub failed_files : ℕ
  pub bytes_uploaded : ℕ
  pub error_summary : Option Text

abbrev pub is_failed : RootStatus → Bool
is_failed root_failed = true
is_failed _ = false

abbrev pub is_partial : RootStatus → Bool
is_partial root_skipped = true
is_partial root_partial_failed = true
is_partial _ = false

unfoldable pub status_from_summary : SyncRunSummary → List RootSyncSummary → SyncRunStatus
status_from_summary summary roots =
    if any (λ (r : RootSyncSummary). is_failed r.status) roots
    then SyncRunStatus.failed
    else if any (λ (r : RootSyncSummary). is_partial r.status) roots
    then SyncRunStatus.partial_failed
    else if is_positive_i64 summary.failed_files
    then (if is_positive_i64 summary.uploaded_files
          || is_positive_i64 summary.updated_files
          || is_positive_i64 summary.deleted_files
        then SyncRunStatus.partial_failed
        else SyncRunStatus.failed)
    else SyncRunStatus.succeeded

first_error : Option Text → Option Text → Option Text
first_error none e = e
first_error (some e) _ = some e

unfoldable pub add_root_summary : SyncRunSummary → RootSyncSummary → SyncRunSummary
unfolding first_error add_i64
add_root_summary total root = record {
  scanned_files = add_i64 total.scanned_files root.scanned_files;
  uploaded_files = add_i64 total.uploaded_files root.uploaded_files;
  updated_files = add_i64 total.updated_files root.updated_files;
  deleted_files = add_i64 total.deleted_files root.deleted_files;
  skipped_files = add_i64 total.skipped_files root.skipped_files;
  failed_files = add_i64 total.failed_files root.failed_files;
  bytes_uploaded = add_i64 total.bytes_uploaded root.bytes_uploaded;
  error_summary = first_error total.error_summary root.error_summary;
}

-- Errors after which a run does not go on.
unfoldable pub is_stop_error : YandexDiskErrorKind → Bool
is_stop_error auth_unavailable = true
is_stop_error quota_exceeded = true
is_stop_error critical = true
is_stop_error _ = false

-- `SyncRunSummary::default()`
abbrev pub empty_summary : SyncRunSummary
empty_summary = record {
  scanned_files = 0;
  uploaded_files = 0;
  updated_files = 0;
  deleted_files = 0;
  skipped_files = 0;
  failed_files = 0;
  bytes_uploaded = 0;
  error_summary = none;
}
