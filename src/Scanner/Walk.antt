-- ===== src/Scanner/Walk.antt =====
-- crates/yds-scanner/src/lib.rs: the walk over a local root.
use mathlib.Core.Option
use ya_disk_sync.Base.{Bool, Option, none, some, List, [], ◌∷◌, ◌++◌, if◌then◌else◌, sort_by}
use ya_disk_sync.Base.Result.{Result, ok, err, ◌>>=◌}
use ya_disk_sync.Base.Text.{Text, text}
use ya_disk_sync.Base.Text.Order.{le_text}
use ya_disk_sync.Core.Exclusions.{
  ExclusionError, ExclusionDecision, ExclusionReason, absolute, pattern_match, included_by_negation,
  not_matched, new_matcher,
}
use ya_disk_sync.Scanner.{
  LocalPath, LocalFileEntry, LocalDirectoryEntry, SkippedScanItem, FailedScanItem, ScanReport,
}
use ya_disk_sync.State.{FileStateRecord}
use ya_disk_sync.Sync.LivePlan.{same_path, strip_root, relative_text}
use ya_disk_sync.Scanner.Entries.{
  ScanOptions, ScanRoot, ScannerError, Metadata, ScanWorld, ScanContext, is_skippable_scan_error,
  error_text, remote_path_for_relative, exclusion_decision, directory_entry,
}
use ya_disk_sync.Scanner.FileEntry.{FileEntryResult, file_found, file_skipped, file_entry}

-- An entry that the crate `ignore` hands to the visitor.
pub record WalkEntry : Type 0 where
  pub path : LocalPath
  pub is_dir : Bool
  pub is_file : Bool

-- What the walk would visit, in any order that the threads make of it: an entry with what lies in
-- it and what comes after it, or an error.
pub data Visits : Type 0 where
  finished : Visits
  visit : WalkEntry → Visits → Visits → Visits
  walk_error : Text → Visits → Visits

-- Whether the walk goes into the directory that was visited.
pub data WalkState : Type 0 where
  go_on skip : WalkState

unfoldable pub empty_report : Text → ScanReport
empty_report root_id = record {
  root_id = root_id;
  files = [];
  directories = [];
  skipped = [];
  failed = [];
}

abbrev pub push_file : ScanReport → LocalFileEntry → ScanReport
push_file report file = record report { files = report.files ++ file ∷ [] }

abbrev pub push_directory : ScanReport → LocalDirectoryEntry → ScanReport
push_directory report directory = record report {
  directories = report.directories ++ directory ∷ [];
}

abbrev pub push_skipped : ScanReport → SkippedScanItem → ScanReport
push_skipped report skipped = record report { skipped = report.skipped ++ skipped ∷ [] }

abbrev pub push_failed : ScanReport → FailedScanItem → ScanReport
push_failed report failed = record report { failed = report.failed ++ failed ∷ [] }

-- `result.ok()`
abbrev pub ok_value : {A E : Type 0} → Result A E → Option A
ok_value (ok a) = some a
ok_value (err e) = none

-- The debug format of a reason.
unfoldable pub reason_text : ExclusionReason → Text
unfolding text
reason_text absolute = text "Absolute"
reason_text pattern_match = text "Pattern"
reason_text included_by_negation = text "IncludedByNegation"
reason_text not_matched = text "NotMatched"

-- `relative_path`
unfoldable pub relative_path_of : LocalPath → LocalPath → Option Text
relative_path_of root path = Option.map relative_text (strip_root path root)

module _ (world : ScanWorld) (context : ScanContext) where
  unfoldable pub failed_item : LocalPath → Text → Option Text → Text → Text → FailedScanItem
  failed_item path relative remote_path error_kind error_message = record {
    root_id = context.root.id;
    local_path = some path;
    relative_path = relative;
    remote_path = remote_path;
    error_kind = error_kind;
    error_message = error_message;
  }

  unfoldable pub remote_path_if_any : Text → Option Text
  remote_path_if_any relative =
      ok_value (remote_path_for_relative world context.root.canonical_remote_path relative)

  unfoldable pub push_file_result :
      WalkEntry → Text → ScanReport → Result FileEntryResult ScannerError → ScanReport
  push_file_result entry relative report (ok (file_found file)) = push_file report file
  push_file_result entry relative report (ok (file_skipped skipped)) = push_skipped report skipped
  push_file_result entry relative report (err error) =
      if is_skippable_scan_error error
      then push_skipped report (record {
        root_id = context.root.id;
        local_path = entry.path;
        relative_path = relative;
        remote_path = remote_path_if_any relative;
        reason_code = text "local_file_unavailable";
        reason_details = some (error_text error);
        size_bytes = Option.map (λ (m : Metadata). m.len) (ok_value (world.metadata_of entry.path));
      })
      else push_failed report (
          failed_item entry.path relative (remote_path_if_any relative) (text "scan")
            (error_text error))

  unfoldable pub push_directory_result :
      WalkEntry → Text → ScanReport → Result LocalDirectoryEntry ScannerError → ScanReport
  push_directory_result entry relative report (ok directory) = push_directory report directory
  push_directory_result entry relative report (err error) =
      push_failed report
        (failed_item entry.path relative none (text "path_mapping") (error_text error))

  -- An entry that no rule excludes.
  unfoldable pub handle_included : WalkEntry → Text → ScanReport → ScanReport
  handle_included entry relative report =
      if entry.is_dir
      then push_directory_result entry relative report
          (directory_entry world context entry.path relative)
      else if entry.is_file
      then push_file_result entry relative report (file_entry world context entry.path relative)
      else report

  unfoldable pub handle_excluded : WalkEntry → Text → ScanReport → ExclusionDecision → ScanReport
  handle_excluded entry relative report decision = push_skipped report (record {
    root_id = context.root.id;
    local_path = entry.path;
    relative_path = relative;
    remote_path = remote_path_if_any relative;
    reason_code = text "excluded";
    reason_details = some (reason_text decision.reason);
    size_bytes = none;
  })

  unfoldable pub handle_relative : WalkEntry → Text → ScanReport → WalkState × ScanReport
  handle_relative entry relative report =
      elim (exclusion_decision world context entry.path relative entry.is_dir) [
        | some decision ↦
            (if entry.is_dir then skip else go_on, handle_excluded entry relative report decision)
        | none ↦ (go_on, handle_included entry relative report)
      ]

  -- The error of a path outside the root has a text of the standard library.
  unfoldable pub handle_walk_entry : Text → WalkEntry → ScanReport → WalkState × ScanReport
  handle_walk_entry outside_message entry report =
      if same_path entry.path context.root.local_path
      then (go_on, report)
      else elim (relative_path_of context.root.local_path entry.path) [
        | none ↦ (
          go_on,
          push_failed report
              (failed_item entry.path [] none (text "relative_path") outside_message),
        )
        | some relative ↦ handle_relative entry relative report
      ]

  -- The walk: what lies in a directory is left out if its visit says so.
  unfoldable pub run_walk : Text → Visits → ScanReport → ScanReport
  run_walk outside_message finished report = report
  run_walk outside_message (visit entry inside after) report =
      let outcome = handle_walk_entry outside_message entry report in
      run_walk outside_message after
        (elim outcome.0 [ go_on ↦ run_walk outside_message inside outcome.1 | skip ↦ outcome.1 ])
  run_walk outside_message (walk_error message after) report = run_walk outside_message after (
      push_failed report (record {
        root_id = context.root.id;
        local_path = none;
        relative_path = [];
        remote_path = none;
        error_kind = text "walk";
        error_message = message;
      }))

unfoldable pub sort_deterministically : ScanReport → ScanReport
sort_deterministically report = record report {
  files = sort_by (λ (l r : LocalFileEntry). le_text l.relative_path r.relative_path) report.files;
  directories =
      sort_by (λ (l r : LocalDirectoryEntry). le_text l.relative_path r.relative_path)
        report.directories;
  skipped =
      sort_by (λ (l r : SkippedScanItem). le_text l.relative_path r.relative_path) report.skipped;
  failed =
      sort_by (λ (l r : FailedScanItem). le_text l.relative_path r.relative_path) report.failed;
}

-- The matchers of a scan; the staging directory is always excluded.
unfoldable pub scan_context :
    ScanWorld
    → (LocalPath → Text)
    → ScanOptions
    → ScanRoot
    → List FileStateRecord
    → Result ScanContext ExclusionError
scan_context world stable_string options root previous_states =
    new_matcher world.ignore_crate world.to_lowercase options.global_excludes root.excludes []
    >>= λ patterns.
        new_matcher world.ignore_crate world.to_lowercase [] []
          (options.absolute_excludes ++ stable_string options.staging_dir ∷ [])
        >>= λ absolutes. ok (record {
          options = options;
          root = root;
          pattern_matcher = patterns;
          absolute_matcher = absolutes;
          previous_states = previous_states;
        })

unfoldable pub scan_root :
    ScanWorld
    → (LocalPath → Text)
    → Text
    → ScanOptions
    → ScanRoot
    → List FileStateRecord
    → Visits
    → Result ScanReport ExclusionError
scan_root world stable_string outside_message options root previous_states visits =
    scan_context world stable_string options root previous_states >>= λ context.
    ok (
      sort_deterministically (run_walk world context outside_message visits (empty_report root.id)))
