-- ===== src/State.antt =====
-- crates/yds-state/src/models.rs: the records that a run writes to its state database.
pub mod RunLock
use ya_disk_sync.Base.{ℕ, Bool, Option}
use ya_disk_sync.Base.Text.{Text}

pub data SyncRunTrigger : Type 0 where
  scheduled manual cli migration : SyncRunTrigger

pub data SyncRunStatus : Type 0 where
  running succeeded partial_failed failed cancelled : SyncRunStatus

pub data FileStateStatus : Type 0 where
  synced failed skipped deleted synced_changed_during_upload : FileStateStatus

pub data DirectoryStateStatus : Type 0 where
  synced failed skipped deleted : DirectoryStateStatus

pub data RemoteResourceType : Type 0 where
  file_type dir_type : RemoteResourceType

pub data OperationStatus : Type 0 where
  running succeeded failed cancelled : OperationStatus

pub record SyncRunSummary : Type 0 where
  pub scanned_files : ℕ
  pub uploaded_files : ℕ
  pub updated_files : ℕ
  pub deleted_files : ℕ
  pub skipped_files : ℕ
  pub failed_files : ℕ
  pub bytes_uploaded : ℕ
  pub error_summary : Option Text

pub record RootRemoteInventoryStatus : Type 0 where
  pub root_id : Text
  pub is_complete : Bool
  pub snapshot_completed_at_utc : Option Text
  pub snapshot_expires_at_utc : Option Text
  pub resource_count : ℕ
  pub last_error : Option Text

pub record FileStateRecord : Type 0 where
  pub root_id : Text
  pub local_path : Text
  pub relative_path : Text
  pub remote_path : Text
  pub normalized_remote_path : Text
  pub size_bytes : ℕ
  pub mtime_ns : Option ℕ
  pub ctime_ns : Option ℕ
  pub fingerprint_kind : Text
  pub fingerprint_value : Option Text
  pub full_sha256 : Option Text
  pub remote_etag : Option Text
  pub remote_md5 : Option Text
  pub last_run_id : Option ℕ
  pub status : FileStateStatus
  pub last_error : Option Text

pub record DirectoryStateRecord : Type 0 where
  pub root_id : Text
  pub local_path : Text
  pub relative_path : Text
  pub remote_path : Text
  pub normalized_remote_path : Text
  pub last_run_id : Option ℕ
  pub status : DirectoryStateStatus
  pub last_error : Option Text

pub record RemoteResourceRecord : Type 0 where
  pub root_id : Text
  pub remote_path : Text
  pub resource_type : RemoteResourceType
  pub size_bytes : Option ℕ
  pub mtime_remote : Option Text
  pub remote_md5 : Option Text

pub record SkippedItemRecord : Type 0 where
  pub root_id : Text
  pub local_path : Text
  pub relative_path : Option Text
  pub remote_path : Option Text
  pub reason_code : Text
  pub reason_details : Option Text
  pub size_bytes : Option ℕ

pub record FailedItemRecord : Type 0 where
  pub root_id : Text
  pub local_path : Option Text
  pub remote_path : Option Text
  pub operation : Text
  pub error_kind : Text
  pub error_message : Text
  pub retry_count : ℕ
  pub next_retry_at_utc : Option Text

pub record OperationRecord : Type 0 where
  pub run_id : ℕ
  pub operation : Text
  pub local_path : Option Text
  pub remote_path : Option Text
