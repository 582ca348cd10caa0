-- ===== src/Scanner/FileEntry.antt =====
-- crates/yds-scanner/src/lib.rs: file_entry and what it is made of.
use ya_disk_sync.Base.{
  ℕ, Bool, true, ◌&&◌, Option, none, some, [], ◌++◌, nat_eq, ltb, if◌then◌else◌, unwrap_or,
}
use ya_disk_sync.Base.Result.{Result, ok, ◌>>=◌}
use ya_disk_sync.Base.Text.{Text, text, ◌==◌}
use ya_disk_sync.Scanner.{LocalPath, LocalFileEntry, SkippedScanItem, Fingerprint}
use ya_disk_sync.State.{FileStateRecord}
use ya_disk_sync.Scanner.Entries.{
  ScannerError, Metadata, ScanWorld, ScanContext, from_state, same_number, previous_state,
  remote_path_for_relative, fingerprint_path, is_sqlite_candidate,
}

-- What becomes of a file: an entry to synchronise, or an item that is left out.
pub data FileEntryResult : Type 0 where
  file_found : LocalFileEntry → FileEntryResult
  file_skipped : SkippedScanItem → FileEntryResult

module _ (world : ScanWorld) where
  unfoldable pub too_large_message : ℕ → ℕ → Text
  too_large_message source_size max_size =
      text "file size "
      ++ (world.to_string source_size
          ++ (text " exceeds configured max " ++ world.to_string max_size))

  -- Whether the record of the last runs still describes the file.
  unfoldable pub is_unchanged : FileStateRecord → ℕ → Option ℕ → Text → Bool
  unfolding same_number ◌==◌
  is_unchanged previous source_size mtime_ns normalized_remote_path =
      nat_eq previous.size_bytes source_size
      && (same_number previous.mtime_ns mtime_ns
          && previous.normalized_remote_path == normalized_remote_path)

  unfoldable pub reused_fingerprint : FileStateRecord → Fingerprint
  reused_fingerprint previous = record {
    kind = from_state previous.fingerprint_kind;
    value = unwrap_or previous.fingerprint_value [];
    full_sha256 = previous.full_sha256;
    local_md5 = previous.remote_md5;
    reused_from_state = true;
  }

  -- An entry with the given source, fingerprint and staging path.
  unfoldable pub local_file :
      ScanContext
      → LocalPath
      → Text
      → Text
      → Metadata
      → LocalPath
      → Fingerprint
      → Option LocalPath
      → FileEntryResult
  local_file context path relative remote_path found upload_source fingerprint staged =
      file_found (record {
        root_id = context.root.id;
        local_path = path;
        relative_path = relative;
        remote_path = remote_path;
        normalized_remote_path = world.to_lowercase remote_path;
        upload_source = upload_source;
        size_bytes = found.len;
        mtime_ns = found.mtime_ns;
        ctime_ns = found.ctime_ns;
        fingerprint = fingerprint;
        sqlite_backup_staging_path = staged;
      })

  unfoldable pub fingerprinted :
      ScanContext
      → LocalPath
      → Text
      → Text
      → Metadata
      → LocalPath
      → Option LocalPath
      → Result FileEntryResult ScannerError
  fingerprinted context path relative remote_path found upload_source staged =
      fingerprint_path world upload_source found.len found.mtime_ns context.options
      >>= λ fingerprint.
          ok (local_file context path relative remote_path found upload_source fingerprint staged)

  -- A file that is new or has changed.
  unfoldable pub changed_file :
      ScanContext → LocalPath → Text → Text → Metadata → Result FileEntryResult ScannerError
  changed_file context path relative remote_path found =
      if is_sqlite_candidate world path
      then (world.backup_sqlite_to_staging path >>= λ staging_path.
          fingerprinted context path relative remote_path found staging_path (some staging_path))
      else fingerprinted context path relative remote_path found path none

  -- A file of which the last runs have left the given record, if any.
  unfoldable pub by_previous :
      ScanContext
      → LocalPath
      → Text
      → Text
      → Metadata
      → Option FileStateRecord
      → Result FileEntryResult ScannerError
  by_previous context path relative remote_path found none =
      changed_file context path relative remote_path found
  by_previous context path relative remote_path found (some previous) =
      if is_unchanged previous found.len found.mtime_ns (world.to_lowercase remote_path)
      then ok (
          local_file context path relative remote_path found path (reused_fingerprint previous)
            none)
      else changed_file context path relative remote_path found

  unfoldable pub sized_file :
      ScanContext → LocalPath → Text → Text → Metadata → Result FileEntryResult ScannerError
  sized_file context path relative remote_path found =
      by_previous context path relative remote_path found
        (previous_state context.previous_states relative)

  unfoldable pub file_entry : ScanContext → LocalPath → Text → Result FileEntryResult ScannerError
  file_entry context path relative = world.metadata_of path >>= λ found.
      remote_path_for_relative world context.root.canonical_remote_path relative >>= λ remote_path.
      if ltb context.options.max_file_size_bytes found.len
      then ok (
          file_skipped (record {
            root_id = context.root.id;
            local_path = path;
            relative_path = relative;
            remote_path = some remote_path;
            reason_code = text "file_too_large";
            reason_details = some (too_large_message found.len context.options.max_file_size_bytes);
            size_bytes = some found.len;
          }))
      else sized_file context path relative remote_path found
