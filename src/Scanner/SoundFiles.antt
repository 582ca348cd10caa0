-- ===== src/Scanner/SoundFiles.antt =====
-- A file that file_entry puts into a scan report.
use ya_disk_sync.Base.{
  ◌≤◌, ◌≡◌, refl, Bool, true, false, Option, none, some, ltb, arith, if◌then◌else◌,
}
use ya_disk_sync.Base.Result.{Result, ok, err, ◌>>=◌}
use ya_disk_sync.Base.Text.{Text}
use ya_disk_sync.Scanner.{LocalPath, LocalFileEntry, Fingerprint}
use ya_disk_sync.State.{FileStateRecord}
use ya_disk_sync.Scanner.Entries.{
  ScannerError, Metadata, ScanWorld, ScanContext, remote_path_for_relative, exclusion_decision,
  fingerprint_path, previous_state, is_sqlite_candidate,
}
use ya_disk_sync.Scanner.FileEntry.{
  FileEntryResult, file_found, file_skipped, local_file, fingerprinted, changed_file, by_previous,
  sized_file, file_entry, is_unchanged, reused_fingerprint,
}

module _ (world : ScanWorld) (context : ScanContext) where
  -- The file is of the root, is not excluded, is not too large, and has the remote path that the
  -- mapping gives for its relative path.
  pub record IsSound (f : LocalFileEntry) : Type 0 where
    pub of_root : f.root_id ≡ context.root.id
    pub kept : exclusion_decision world context f.local_path f.relative_path false ≡ none
    pub small : f.size_bytes ≤ context.options.max_file_size_bytes
    pub mapped :
        remote_path_for_relative world context.root.canonical_remote_path f.relative_path
        ≡ ok f.remote_path
    pub normalized : f.normalized_remote_path ≡ world.to_lowercase f.remote_path

  -- What the checks before the fingerprint have found out about a file.
  record IsChecked (path : LocalPath) (relative remote_path : Text) (found : Metadata)
      : Type 0 where
    is_kept : exclusion_decision world context path relative false ≡ none
    is_small : found.len ≤ context.options.max_file_size_bytes
    is_mapped :
        remote_path_for_relative world context.root.canonical_remote_path relative ≡ ok remote_path

  -- The result is a sound file if it is a file.
  abbrev pub IsFine : Result FileEntryResult ScannerError → Type 0
  IsFine (ok (file_found f)) = IsSound f
  IsFine (ok (file_skipped s)) = Unit
  IsFine (err e) = Unit

  IsFine-bind :
      {A : Type 0} (r : Result A ScannerError) (f : A → Result FileEntryResult ScannerError)
      → ((a : A) → r ≡ ok a → IsFine (f a))
      → IsFine (r >>= f)
  IsFine-bind (ok a) f k = k a refl
  IsFine-bind (err e) f k = tt

  IsFine-if :
      (b : Bool) (r s : Result FileEntryResult ScannerError)
      → IsFine r
      → (b ≡ false → IsFine s)
      → IsFine (if b then r else s)
  IsFine-if true r s k l = k
  IsFine-if false r s k l = l refl

  module _ (path : LocalPath) (relative remote_path : Text) (found : Metadata)
      (checked : IsChecked path relative remote_path found) where
    local_file-IsFine :
        (source : LocalPath) (fingerprint : Fingerprint) (staged : Option LocalPath)
        → IsFine (
            ok (local_file world context path relative remote_path found source fingerprint staged))
    unfolding local_file
    local_file-IsFine source fingerprint staged = record {
      of_root = refl;
      kept = checked.is_kept;
      small = checked.is_small;
      mapped = checked.is_mapped;
      normalized = refl;
    }

    fingerprinted-IsFine :
        (source : LocalPath) (staged : Option LocalPath)
        → IsFine (fingerprinted world context path relative remote_path found source staged)
    unfolding fingerprinted
    fingerprinted-IsFine source staged =
        IsFine-bind (fingerprint_path world source found.len found.mtime_ns context.options) _
          (λ fingerprint e. local_file-IsFine source fingerprint staged)

    changed_file-IsFine : IsFine (changed_file world context path relative remote_path found)
    unfolding changed_file
    changed_file-IsFine =
        IsFine-if (is_sqlite_candidate world path) _ _
          (IsFine-bind (world.backup_sqlite_to_staging path) _
            (λ staging_path e. fingerprinted-IsFine staging_path (some staging_path)))
          (λ c. fingerprinted-IsFine path none)

    by_previous-IsFine :
        (previous : Option FileStateRecord)
        → IsFine (by_previous world context path relative remote_path found previous)
    unfolding by_previous
    by_previous-IsFine none = changed_file-IsFine
    by_previous-IsFine (some p) =
        IsFine-if (is_unchanged world p found.len found.mtime_ns (world.to_lowercase remote_path)) _
          _ (local_file-IsFine path (reused_fingerprint world p) none) (λ c. changed_file-IsFine)

    sized_file-IsFine : IsFine (sized_file world context path relative remote_path found)
    unfolding sized_file
    sized_file-IsFine = by_previous-IsFine (previous_state context.previous_states relative)

  pub file_entry-IsFine :
      (path : LocalPath) (relative : Text)
      → exclusion_decision world context path relative false ≡ none
      → IsFine (file_entry world context path relative)
  unfolding file_entry
  file_entry-IsFine path relative h = IsFine-bind (world.metadata_of path) _ (λ found e.
      IsFine-bind (remote_path_for_relative world context.root.canonical_remote_path relative) _
        (λ remote_path m.
          IsFine-if (ltb context.options.max_file_size_bytes found.len) _ _ tt (λ small.
            sized_file-IsFine path relative remote_path found
              (record { is_kept = h; is_small = ground arith; is_mapped = m }))))
