-- ===== src/Scanner/Entries.antt =====
-- crates/yds-scanner/src/lib.rs: what becomes of one local file or directory.
use ya_disk_sync.Base.{
  ℕ, Bool, true, false, ◌&&◌, ◌||◌, Option, none, some, List, [], ◌∷◌, ◌++◌, map, nat_eq, leb,
  if◌then◌else◌, is_some_and, unwrap_or,
}
use ya_disk_sync.Base.Result.{Result, ok, err, ◌>>=◌}
use ya_disk_sync.Base.Text.{
  Text, text, ◌==◌, slash, is_slash, trim_end_matches, replace_backslash, to_ascii_lowercase,
}
use ya_disk_sync.Core.PathMapping.{PathMappingError, sanitize_remote_path}
use ya_disk_sync.Core.Exclusions.{
  IgnoreCrate, ExclusionMatcher, ExclusionDecision, ExclusionReason, absolute, decision_for_path,
}
use ya_disk_sync.Scanner.{
  LocalPath, LocalDirectoryEntry, Fingerprint, FingerprintKind, sha256, metadata, deleted, unknown,
}
use ya_disk_sync.State.{FileStateRecord}

pub record ScanOptions : Type 0 where
  pub global_excludes : List Text
  pub absolute_excludes : List Text
  pub max_file_size_bytes : ℕ
  pub full_hash_max_bytes : ℕ
  pub large_file_name_size_only_min_bytes : ℕ
  pub scan_concurrency : ℕ
  pub staging_dir : LocalPath

pub record ScanRoot : Type 0 where
  pub id : Text
  pub local_path : LocalPath
  pub canonical_remote_path : Text
  pub excludes : List Text

pub data IoErrorKind : Type 0 where
  io_not_found io_permission_denied io_would_block io_other : IoErrorKind

-- The errors that one entry may meet, with their texts.
pub data ScannerError : Type 0 where
  io_failure : IoErrorKind → Option ℕ → Text → ScannerError
  mapping_failure : PathMappingError → Text → ScannerError
  sqlite_backup_failure : Bool → Text → ScannerError
  sqlite_backup_timed_out : Text → ScannerError

pub record Metadata : Type 0 where
  pub len : ℕ
  pub mtime_ns : Option ℕ
  pub ctime_ns : Option ℕ

-- What the file system and the libraries answer while a root is scanned.
pub record ScanWorld : Type 0 where
  pub metadata_of : LocalPath → Result Metadata ScannerError
  pub sha256_and_md5_file : LocalPath → Result (Text × Text) ScannerError
  pub backup_sqlite_to_staging : LocalPath → Result LocalPath ScannerError
  pub ignore_crate : IgnoreCrate
  pub to_lowercase : Text → Text
  pub to_string : ℕ → Text
  pub to_string_lossy : LocalPath → Text
  pub extension : LocalPath → Option Text
  pub mapping_text : PathMappingError → Text

-- The matcher of the patterns, that of the absolute paths, and what the last runs left.
pub record ScanContext : Type 0 where
  pub options : ScanOptions
  pub root : ScanRoot
  pub pattern_matcher : ExclusionMatcher
  pub absolute_matcher : ExclusionMatcher
  pub previous_states : List FileStateRecord

unfoldable pub from_state : Text → FingerprintKind
unfolding ◌==◌ text
from_state value =
    if value == text "sha256"
    then sha256
    else if value == text "metadata"
    then metadata
    else if value == text "deleted"
    then deleted
    else unknown

abbrev pub is_skippable_kind : IoErrorKind → Bool
is_skippable_kind io_other = false
is_skippable_kind _ = true

-- The two Windows errors of a file that another program holds.
abbrev pub is_sharing_error : ℕ → Bool
is_sharing_error code = nat_eq code 32 || nat_eq code 33

unfoldable pub is_skippable_scan_error : ScannerError → Bool
is_skippable_scan_error (io_failure kind code message) =
    is_skippable_kind kind || is_some_and code is_sharing_error
is_skippable_scan_error (mapping_failure error message) = false
is_skippable_scan_error (sqlite_backup_failure busy_or_locked message) = busy_or_locked
is_skippable_scan_error (sqlite_backup_timed_out message) = true

abbrev pub error_text : ScannerError → Text
error_text (io_failure kind code message) = message
error_text (mapping_failure error message) = message
error_text (sqlite_backup_failure busy message) = message
error_text (sqlite_backup_timed_out message) = message

abbrev pub is_absolute : ExclusionReason → Bool
is_absolute absolute = true
is_absolute _ = false

unfoldable pub same_number : Option ℕ → Option ℕ → Bool
same_number none none = true
same_number (some a) (some b) = nat_eq a b
same_number _ _ = false

-- `previous_states.get(relative)` in the map that `previous_state_map` makes: the last record wins.
unfoldable pub previous_state : List FileStateRecord → Text → Option FileStateRecord
unfolding ◌==◌
previous_state [] relative = none
previous_state (record_ ∷ records) relative = elim (previous_state records relative) [
  | some later ↦ some later
  | none ↦ if record_.relative_path == relative then some record_ else none
]

module _ (world : ScanWorld) where
  unfoldable pub or_mapping_failure : Result Text PathMappingError → Result Text ScannerError
  or_mapping_failure (ok path) = ok path
  or_mapping_failure (err error) = err (mapping_failure error (world.mapping_text error))

  unfoldable pub remote_path_for_relative : Text → Text → Result Text ScannerError
  unfolding trim_end_matches replace_backslash
  remote_path_for_relative canonical_remote_path relative = or_mapping_failure (
      sanitize_remote_path
        (trim_end_matches is_slash canonical_remote_path ++ (slash ∷ replace_backslash relative)))

  unfoldable pub metadata_fingerprint_value : ℕ → Option ℕ → Text
  metadata_fingerprint_value size_bytes mtime_ns =
      text "size="
      ++ (world.to_string size_bytes
          ++ (text ";mtime_ns=" ++ world.to_string (unwrap_or mtime_ns 0)))

  unfoldable pub fingerprint_path :
      LocalPath → ℕ → Option ℕ → ScanOptions → Result Fingerprint ScannerError
  fingerprint_path path source_size source_mtime_ns options =
      if leb source_size options.full_hash_max_bytes
      then (world.sha256_and_md5_file path >>= λ hashes. ok (record {
        kind = sha256;
        value = hashes.0;
        full_sha256 = some hashes.0;
        local_md5 = some hashes.1;
        reused_from_state = false;
      }))
      else ok (record {
        kind = metadata;
        value = metadata_fingerprint_value source_size source_mtime_ns;
        full_sha256 = none;
        local_md5 = none;
        reused_from_state = false;
      })

  unfoldable pub is_sqlite_candidate : LocalPath → Bool
  unfolding ◌==◌ text
  is_sqlite_candidate path = is_some_and (world.extension path) (λ extension.
      let lower = map to_ascii_lowercase extension in
      lower == text "sqlite" || (lower == text "sqlite3" || lower == text "db"))

  unfoldable pub exclusion_decision :
      ScanContext → LocalPath → Text → Bool → Option ExclusionDecision
  exclusion_decision context path relative is_dir =
      let by_path =
        decision_for_path world.ignore_crate world.to_lowercase context.absolute_matcher
          (world.to_string_lossy path) is_dir in
      let by_pattern =
        decision_for_path world.ignore_crate world.to_lowercase context.pattern_matcher relative
          is_dir in
      if by_path.is_excluded && is_absolute by_path.reason
      then some by_path
      else if by_pattern.is_excluded
      then some by_pattern
      else none

  unfoldable pub directory_entry :
      ScanContext → LocalPath → Text → Result LocalDirectoryEntry ScannerError
  directory_entry context path relative =
      remote_path_for_relative context.root.canonical_remote_path relative >>= λ remote_path.
      ok (record {
        root_id = context.root.id;
        local_path = path;
        relative_path = relative;
        normalized_remote_path = world.to_lowercase remote_path;
        remote_path = remote_path;
      })
