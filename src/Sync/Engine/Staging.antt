-- ===== src/Sync/Engine/Staging.antt =====
-- The calls of crates/yds-scanner/src/lib.rs that a root makes around its phases: what the scan
-- found is recorded, and what it staged is removed.
use mathlib.Core.Option
use ya_disk_sync.Base.{Option, none, some, List, [], ◌∷◌, ◌++◌, ltb, ◌^◌, ℕ, if◌then◌else◌}
use ya_disk_sync.Base.Result.{Result, ok, err}
use ya_disk_sync.Base.Text.{text}
use ya_disk_sync.Scanner.{LocalFileEntry, SkippedScanItem, FailedScanItem, ScanReport}
use ya_disk_sync.Sync.Plan.{Platform}
use ya_disk_sync.Base.Exec.{pure, fail, ◌>>=◌, ◌>>◌}
use ya_disk_sync.Sync.Engine.World.{
  SyncError, state_error, scanner_error, Environment, IoError, M, RepositoryCall, call, attempt,
  lift, remove_staging, mark_skipped, mark_failed,
}

-- A state error that passes through the scanner.
unfoldable pub as_scanner_error : SyncError → SyncError
as_scanner_error (state_error message) = scanner_error (text "state error: " ++ message)
as_scanner_error e = e

unfoldable pub through_scanner : {A : Type 0} → Result A SyncError → Result A SyncError
unfolding as_scanner_error
through_scanner (ok a) = ok a
through_scanner (err e) = err (as_scanner_error e)

-- `i64::try_from(value).ok()`
unfoldable pub u64_to_i64_ok : ℕ → Option ℕ
u64_to_i64_ok value = if ltb value (2 ^ 63) then some value else none

module _ (env : Environment) where
  unfoldable pub scanner_call : RepositoryCall → M (Unit {0})
  scanner_call c = do outcome ← attempt (call env c); lift (through_scanner outcome)

  unfoldable pub cleanup_outcome : Result (Unit {0}) IoError → M (Unit {0})
  cleanup_outcome (ok u) = pure tt
  cleanup_outcome (err error) =
      if error.is_not_found then pure tt else fail (scanner_error error.message)

  unfoldable pub cleanup_staging_files : List LocalFileEntry → M (Unit {0})
  cleanup_staging_files [] = pure tt
  cleanup_staging_files (file ∷ files) = elim file.sqlite_backup_staging_path [
    | none ↦ cleanup_staging_files files
    | some staging_path ↦ (do
      outcome ← remove_staging env staging_path
      cleanup_outcome outcome
      cleanup_staging_files files)
  ]

  module _ (platform : Platform) where
    unfoldable pub record_skipped_items : List SkippedScanItem → M (Unit {0})
    record_skipped_items [] = pure tt
    record_skipped_items (skipped ∷ items) = do
      scanner_call (
          mark_skipped (record {
            root_id = skipped.root_id;
            local_path = platform.stable_string skipped.local_path;
            relative_path = some skipped.relative_path;
            remote_path = skipped.remote_path;
            reason_code = skipped.reason_code;
            reason_details = skipped.reason_details;
            size_bytes = Option.bind skipped.size_bytes u64_to_i64_ok;
          }))
      record_skipped_items items

    unfoldable pub record_failed_items : List FailedScanItem → M (Unit {0})
    record_failed_items [] = pure tt
    record_failed_items (failed ∷ items) = do
      scanner_call (
          mark_failed (record {
            root_id = failed.root_id;
            local_path = Option.map platform.stable_string failed.local_path;
            remote_path = failed.remote_path;
            operation = text "scan";
            error_kind = failed.error_kind;
            error_message = failed.error_message;
            retry_count = 0;
            next_retry_at_utc = none;
          }))
      record_failed_items items

    unfoldable pub record_scan_findings : ScanReport → M (Unit {0})
    record_scan_findings report = do
      record_skipped_items report.skipped
      record_failed_items report.failed
