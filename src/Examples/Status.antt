-- ===== src/Examples/Status.antt =====
-- A run whose only root has no local directory.
use ya_disk_sync.Base.{
  ◌≡◌, ◌≢◌, ◌↔◌, ◌<◌, ◌^◌, refl, false, none, some, List, [], ◌∷◌, ◌++◌, All, arith,
}
use ya_disk_sync.Base.Result.{ok}
use ya_disk_sync.Base.Words.{is_positive_i64}
use ya_disk_sync.Base.Text.{text}
use ya_disk_sync.Base.Exec.{pure, continue, ◌>>=◌, ◌>>◌}
use ya_disk_sync.Core.Config.{AppConfig}
use ya_disk_sync.Core.PathMapping.{canonical_remote_path, is_kept}
use ya_disk_sync.State.{SyncRunStatus}
use ya_disk_sync.Sync.Summary.{RootSyncSummary, root_skipped, status_from_summary, add_root_summary}
use ya_disk_sync.Sync.Summary.Status.{IsClean, total_failed}
use ya_disk_sync.Sync.Engine.{
  Event, Environment, ask, attempt, lift, call, or_state_error, local_files, is_cancelled,
  acquire_lock, begin_run, record_missing_root,
}
use ya_disk_sync.Sync.Engine.Run.{
  SyncRunReport, available_remote_bytes, disk_outcome, free_space, execute_run,
  initial_root_summary, root_summary_at, run_root, run_roots, after_root, push_root,
}
use ya_disk_sync.Sync.Engine.Run.Once.{new_report, conclude, close_run, run_locked, run_with_lock}
use ya_disk_sync.Sync.Engine.Run.Outcome.{run_with_lock-succeeded}
use ya_disk_sync.Sync.Engine.MissingRoot.{run_roots-missing_root}
use ya_disk_sync.Examples.Core.{config, canonical}
use ya_disk_sync.Examples.Data.{platform, root_config}
use ya_disk_sync.Examples.Engine.{env}
use ya_disk_sync.Examples.Run.{options}

abbrev empty_env : Environment
empty_env = record env {
  files = λ events. record { is_dir = λ p. false; path_exists = λ p. false };
}

abbrev one_root : AppConfig
one_root = record config { roots = root_config ∷ [] }

abbrev skipped : RootSyncSummary
skipped = record {
  root_id = [];
  local_path = b'/' ∷ b'b' ∷ [];
  canonical_remote_path = canonical;
  status = root_skipped;
  scanned_files = 0;
  uploaded_files = 0;
  updated_files = 0;
  deleted_files = 0;
  skipped_files = 1;
  failed_files = 0;
  bytes_uploaded = 0;
  error_summary = some (text "local root is missing or not a directory: " ++ (b'/' ∷ b'b' ∷ []));
}

abbrev final : SyncRunReport
final = record (push_root skipped (new_report 1)) { status = SyncRunStatus.partial_failed }

abbrev run_history : List Event
run_history = (run_with_lock empty_env platform one_root options []).1

run_ends : run_with_lock empty_env platform one_root options [] ≡ (ok final, run_history)
unfolding run_with_lock run_locked new_report execute_run available_remote_bytes disk_outcome
    free_space run_roots run_root initial_root_summary root_summary_at after_root push_root conclude
    close_run record_missing_root acquire_lock begin_run call or_state_error attempt lift ask
    local_files is_cancelled pure ◌>>=◌ ◌>>◌ continue status_from_summary add_root_summary
    is_positive_i64 canonical_remote_path is_kept
run_ends = refl

run_with_lock-succeeded_example : (final.status ≡ SyncRunStatus.succeeded) ↔ (
    All IsClean final.roots
    × (final.status ≢ SyncRunStatus.cancelled)
    × (final.status ≢ SyncRunStatus.failed))
unfolding total_failed push_root new_report
run_with_lock-succeeded_example =
    run_with_lock-succeeded empty_env platform one_root options [] run_history final run_ends small
  where
    small : total_failed final.roots < 2 ^ 63
    small = ground arith

abbrev loop_history : List Event
loop_history =
    ((run_roots empty_env platform one_root false (root_config ∷ []) none (new_report 1)
        >>= conclude empty_env platform one_root)
      []).1

loop_ends :
    (run_roots empty_env platform one_root false (root_config ∷ []) none (new_report 1)
        >>= conclude empty_env platform one_root)
      []
    ≡ (ok final, loop_history)
unfolding new_report run_roots run_root initial_root_summary root_summary_at after_root push_root
    conclude record_missing_root call or_state_error attempt lift ask local_files is_cancelled pure
    ◌>>=◌ ◌>>◌ continue status_from_summary add_root_summary is_positive_i64 canonical_remote_path
    is_kept
loop_ends = refl

run_roots-missing_root_example : final.status ≢ SyncRunStatus.succeeded
run_roots-missing_root_example =
    run_roots-missing_root empty_env platform one_root root_config false [] none (new_report 1)
      final [] loop_history refl (λ e. refl) (λ e. refl) loop_ends
