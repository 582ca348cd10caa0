-- ===== src/Scanner.antt =====
-- crates/yds-scanner/src/lib.rs: what a scan of a local root reports.
pub mod Entries
pub mod FileEntry
pub mod SoundFiles
pub mod Walk
pub mod Sound
pub mod Stale
use ya_disk_sync.Base.{ℕ, Bool, Option, List}
use ya_disk_sync.Base.Text.{Text, text}

-- A `PathBuf` that is absolute, as its components with the last one first, so that the parent of a
-- path is its tail. The last component of the list is the root directory or the drive.
abbrev pub LocalPath : Type 0
LocalPath = List Text

pub data FingerprintKind : Type 0 where
  sha256 metadata deleted unknown : FingerprintKind

-- `FingerprintKind::as_str`
unfoldable pub fingerprint_as_str : FingerprintKind → Text
unfolding text
fingerprint_as_str sha256 = text "sha256"
fingerprint_as_str metadata = text "metadata"
fingerprint_as_str deleted = text "deleted"
fingerprint_as_str unknown = text "unknown"

pub record Fingerprint : Type 0 where
  pub kind : FingerprintKind
  pub value : Text
  pub full_sha256 : Option Text
  pub local_md5 : Option Text
  pub reused_from_state : Bool

pub record LocalFileEntry : Type 0 where
  pub root_id : Text
  pub local_path : LocalPath
  pub relative_path : Text
  pub remote_path : Text
  pub normalized_remote_path : Text
  pub upload_source : LocalPath
  pub size_bytes : ℕ
  pub mtime_ns : Option ℕ
  pub ctime_ns : Option ℕ
  pub fingerprint : Fingerprint
  pub sqlite_backup_staging_path : Option LocalPath

pub record LocalDirectoryEntry : Type 0 where
  pub root_id : Text
  pub local_path : LocalPath
  pub relative_path : Text
  pub remote_path : Text
  pub normalized_remote_path : Text

pub record SkippedScanItem : Type 0 where
  pub root_id : Text
  pub local_path : LocalPath
  pub relative_path : Text
  pub remote_path : Option Text
  pub reason_code : Text
  pub reason_details : Option Text
  pub size_bytes : Option ℕ

pub record FailedScanItem : Type 0 where
  pub root_id : Text
  pub local_path : Option LocalPath
  pub relative_path : Text
  pub remote_path : Option Text
  pub error_kind : Text
  pub error_message : Text

pub record ScanReport : Type 0 where
  pub root_id : Text
  pub files : List LocalFileEntry
  pub directories : List LocalDirectoryEntry
  pub skipped : List SkippedScanItem
  pub failed : List FailedScanItem
