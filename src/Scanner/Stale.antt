-- ===== src/Scanner/Stale.antt =====
-- A file whose upload was skipped, at the next scan.
use ya_disk_sync.Base.{
  ℕ, ◌≤◌, ◌<◌, ◌^◌, ◌≡◌, refl, true, false, Option, none, some, nat_eq, ltb, arith,
}
use ya_disk_sync.Base.Result.{ok}
use ya_disk_sync.Base.Words.{u64_to_i64}
use ya_disk_sync.Base.Text.{Text, ==_refl}
use ya_disk_sync.Scanner.{LocalFileEntry}
use ya_disk_sync.State.{FileStateStatus}
use ya_disk_sync.Sync.Inventory.{Inventory, is_remote_file}
use ya_disk_sync.Sync.Plan.{Platform, should_upload}
use ya_disk_sync.Sync.Engine.Uploads.{file_state_record}
use ya_disk_sync.Scanner.Entries.{
  Metadata, ScanWorld, ScanContext, remote_path_for_relative, previous_state, same_number,
}
use ya_disk_sync.Scanner.FileEntry.{
  file_found, is_unchanged, local_file, reused_fingerprint, by_previous, sized_file, file_entry,
}

same_number_refl : (a : Option ℕ) → same_number a a ≡ true
unfolding same_number
same_number_refl none = refl
same_number_refl (some n) = ground arith

-- The file is on the disk as it was, and the database holds the record of its skipped upload.
pub record IsSkippedBefore (world : ScanWorld) (context : ScanContext) (platform : Platform)
    (file : LocalFileEntry) (found : Metadata) (run_id : ℕ) (error : Text) : Type 0 where
  pub reads : world.metadata_of file.local_path ≡ ok found
  pub same_size : found.len ≡ file.size_bytes
  pub same_mtime : found.mtime_ns ≡ file.mtime_ns
  pub small : file.size_bytes ≤ context.options.max_file_size_bytes
  pub in_range : file.size_bytes < 2 ^ 63
  pub maps :
      remote_path_for_relative world context.root.canonical_remote_path file.relative_path
      ≡ ok file.remote_path
  pub lowers : file.normalized_remote_path ≡ world.to_lowercase file.remote_path
  pub recorded :
      previous_state context.previous_states file.relative_path
      ≡ some (file_state_record platform file run_id FileStateStatus.skipped (some error))

-- The entry that the next scan makes of the file.
abbrev reused_entry :
    ScanContext → Platform → LocalFileEntry → Metadata → ℕ → Text → ScanWorld → LocalFileEntry
reused_entry context platform file found run_id error world = record {
  root_id = context.root.id;
  local_path = file.local_path;
  relative_path = file.relative_path;
  remote_path = file.remote_path;
  normalized_remote_path = world.to_lowercase file.remote_path;
  upload_source = file.local_path;
  size_bytes = found.len;
  mtime_ns = found.mtime_ns;
  ctime_ns = found.ctime_ns;
  fingerprint =
      reused_fingerprint world
        (file_state_record platform file run_id FileStateStatus.skipped (some error));
  sqlite_backup_staging_path = none;
}

module _ (world : ScanWorld) (context : ScanContext) (platform : Platform) (file : LocalFileEntry)
    (found : Metadata) (run_id : ℕ) (error : Text)
    (h : IsSkippedBefore world context platform file found run_id error) where
  record_still_fits :
      is_unchanged world
        (file_state_record platform file run_id FileStateStatus.skipped (some error))
        found.len
        found.mtime_ns
        (world.to_lowercase file.remote_path)
      ≡ true
  unfolding is_unchanged file_state_record u64_to_i64
  record_still_fits =
      rw
        (
          size,
          h.same_mtime,
          same_number_refl file.mtime_ns,
          h.lowers,
          ==_refl (world.to_lowercase file.remote_path),
        )
        refl
    where
      size : nat_eq (u64_to_i64 file.size_bytes) found.len ≡ true
      size = ground (arith, h.same_size, h.in_range)

  fits_limit : ltb context.options.max_file_size_bytes found.len ≡ false
  fits_limit = ground (arith, h.same_size, h.small)

  sized_file-reused :
      sized_file world context file.local_path file.relative_path file.remote_path found
      ≡ ok (file_found (reused_entry context platform file found run_id error world))
  unfolding sized_file by_previous local_file
  sized_file-reused = rw (h.recorded, record_still_fits) refl

-- If the upload of a file was skipped, and so the database holds the record that the upload phase
-- writes then, the next scan of the unchanged file takes its fingerprint from that record, and the
-- plan does not upload it as long as there is any file at its remote path, were it an old version.
pub file_entry-record_skipped :
    (world : ScanWorld) (context : ScanContext) (platform : Platform) (file : LocalFileEntry)
    (found : Metadata) (run_id : ℕ) (error : Text) (inventory : Inventory)
    → IsSkippedBefore world context platform file found run_id error
    → is_remote_file inventory file.remote_path ≡ true
    → (again : LocalFileEntry) × (file_entry world context file.local_path file.relative_path
        ≡ ok (file_found again))
      × (again.remote_path ≡ file.remote_path)
      × (again.fingerprint.reused_from_state ≡ true)
      × (should_upload inventory again ≡ false)
unfolding file_entry should_upload reused_fingerprint
file_entry-record_skipped world context platform file found run_id error inventory h remote = (
  reused_entry context platform file found run_id error world,
  rw (h.reads, h.maps, fits_limit world context platform file found run_id error h)
      (sized_file-reused world context platform file found run_id error h),
  refl,
  refl,
  rw remote refl,
)
