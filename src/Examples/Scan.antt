-- ===== src/Examples/Scan.antt =====
-- A scan at concrete inputs: one new file, and one whose upload was skipped.
use ya_disk_sync.Base.{
  ◌≡◌, refl, true, false, none, some, [], ◌∷◌, All, arith, filter, any, sort_by, insert_by,
}
use ya_disk_sync.Base.Result.{ok, try_map}
use ya_disk_sync.Base.Text.{
  Text, ◌==◌, strip_prefix, starts_with_slash, trim, trim_matches, trim_end_matches,
  trim_start_matches, is_whitespace, is_empty, is_control, replace_backslash,
}
use ya_disk_sync.Base.Text.Split.{split, join}
use ya_disk_sync.Base.Text.Order.{le_text}
use ya_disk_sync.Core.Exclusions.{
  unmatched, new_matcher, add_rules, or_invalid_rule, decision_for_path, decision_of_verdict,
  matches_absolute_exclude, normalize_absolute_path, looks_like_windows_path, excluded, included,
}
use ya_disk_sync.Core.PathMapping.{
  sanitize_remote_path, sanitize_segment, remote_root_segments, build_remote_path, is_kept,
}
use ya_disk_sync.Scanner.{LocalPath, LocalFileEntry, ScanReport, sha256}
use ya_disk_sync.State.{FileStateRecord, FileStateStatus}
use ya_disk_sync.Sync.LivePlan.{same_path, strip_root, relative_text}
use ya_disk_sync.Sync.Inventory.{is_remote_file, get_resource}
use ya_disk_sync.Sync.Plan.{should_upload}
use ya_disk_sync.Sync.Engine.Uploads.{file_state_record}
use ya_disk_sync.Scanner.Entries.{
  ScanOptions, ScanRoot, Metadata, ScanWorld, ScanContext, exclusion_decision, fingerprint_path,
  is_sqlite_candidate, remote_path_for_relative, or_mapping_failure, previous_state,
}
use ya_disk_sync.Scanner.FileEntry.{
  file_found, file_entry, sized_file, by_previous, changed_file, fingerprinted, local_file,
}
use ya_disk_sync.Scanner.Walk.{
  Visits, finished, visit, empty_report, relative_path_of, push_file_result, handle_included,
  handle_relative, handle_walk_entry, run_walk, sort_deterministically, scan_context, scan_root,
}
use ya_disk_sync.Scanner.Sound.{scan_root-IsSound}
use ya_disk_sync.Scanner.SoundFiles.{IsSound}
use ya_disk_sync.Scanner.Stale.{IsSkippedBefore, file_entry-record_skipped}
use ya_disk_sync.Examples.Data.{remote_root, local_root, f_file, platform, inventory_in_sync}

-- No rule matches anything, and every file has seven bytes.
abbrev world : ScanWorld
world = record {
  metadata_of = λ p. ok (record { len = 7; mtime_ns = none; ctime_ns = none });
  sha256_and_md5_file = λ p. ok ([], []);
  backup_sqlite_to_staging = λ p. ok p;
  ignore_crate = record {
    add_line = λ lines line. none;
    build = λ lines. none;
    matched_path_or_any_parents = λ lines path is_dir. unmatched;
  };
  to_lowercase = λ t. t;
  to_string = λ n. [];
  to_string_lossy = λ p. [];
  extension = λ p. none;
  mapping_text = λ e. [];
}

abbrev options : ScanOptions
options = record {
  global_excludes = [];
  absolute_excludes = [];
  max_file_size_bytes = 100;
  full_hash_max_bytes = 50;
  large_file_name_size_only_min_bytes = 60;
  scan_concurrency = 1;
  staging_dir = local_root;
}

abbrev root : ScanRoot
root = record {
  id = [];
  local_path = local_root;
  canonical_remote_path = remote_root;
  excludes = [];
}

abbrev stable_string : LocalPath → Text
stable_string p = b's' ∷ []

abbrev one_file : Visits
one_file =
    visit (record { path = (f_file false).local_path; is_dir = false; is_file = true }) finished
      finished

abbrev report : ScanReport
report = record (empty_report []) {
  files =
      record (f_file false) {
        fingerprint = record {
          kind = sha256;
          value = [];
          full_sha256 = some [];
          local_md5 = some [];
          reused_from_state = false;
        };
      }
      ∷ [];
}

scan_finds : scan_root world stable_string [] options root [] one_file ≡ ok report
unfolding scan_root scan_context new_matcher add_rules or_invalid_rule run_walk handle_walk_entry
    handle_relative handle_included relative_path_of same_path strip_root relative_text
    exclusion_decision decision_for_path decision_of_verdict matches_absolute_exclude
    normalize_absolute_path looks_like_windows_path excluded included push_file_result file_entry
    sized_file by_previous changed_file fingerprinted fingerprint_path local_file
    is_sqlite_candidate remote_path_for_relative or_mapping_failure previous_state
    sanitize_remote_path sanitize_segment remote_root_segments build_remote_path is_kept
    sort_deterministically empty_report sort_by insert_by le_text split join filter any try_map ◌==◌
    strip_prefix starts_with_slash trim trim_matches trim_end_matches trim_start_matches
    is_whitespace is_empty is_control replace_backslash
scan_finds = refl

scan_root-IsSound_example :
    (context : ScanContext) × (scan_context world stable_string options root [] ≡ ok context)
    × (context.options ≡ options)
    × (context.root ≡ root)
    × All (IsSound world context) report.files
scan_root-IsSound_example =
    scan_root-IsSound world stable_string [] options root [] one_file report scan_finds

abbrev small_file : Metadata
small_file = record { len = 7; mtime_ns = none; ctime_ns = none }

abbrev skipped_state : FileStateRecord
skipped_state = file_state_record platform (f_file false) 1 FileStateStatus.skipped (some [])

-- No rule, and the record of the skipped upload.
abbrev context : ScanContext
context = record {
  options = options;
  root = root;
  pattern_matcher = record { patterns = []; absolute_excludes = [] };
  absolute_matcher = record { patterns = []; absolute_excludes = [] };
  previous_states = skipped_state ∷ [];
}

skipped_before : IsSkippedBefore world context platform (f_file false) small_file 1 []
unfolding remote_path_for_relative or_mapping_failure previous_state sanitize_remote_path
    sanitize_segment remote_root_segments build_remote_path is_kept split join filter try_map ◌==◌
    strip_prefix starts_with_slash trim trim_matches trim_end_matches trim_start_matches
    is_whitespace is_empty is_control replace_backslash file_state_record
skipped_before = record {
  reads = refl;
  same_size = refl;
  same_mtime = refl;
  small = ground arith;
  in_range = ground arith;
  maps = refl;
  lowers = refl;
  recorded = refl;
}

is_remote : is_remote_file inventory_in_sync (f_file false).remote_path ≡ true
unfolding is_remote_file get_resource ◌==◌
is_remote = refl

file_entry-record_skipped_example :
    (again : LocalFileEntry) × (file_entry world context
        (f_file false).local_path
        (f_file false).relative_path
      ≡ ok (file_found again))
    × (again.remote_path ≡ (f_file false).remote_path)
    × (again.fingerprint.reused_from_state ≡ true)
    × (should_upload inventory_in_sync again ≡ false)
file_entry-record_skipped_example =
    file_entry-record_skipped world context platform (f_file false) small_file 1 []
      inventory_in_sync skipped_before is_remote
