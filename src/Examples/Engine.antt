-- ===== src/Examples/Engine.antt =====
-- The phases and ends of a root at concrete inputs.
use mathlib.Core.Path.{subst}
use ya_disk_sync.Base.Exec.{pure, ◌>>=◌, ◌>>◌, continue}
use ya_disk_sync.Base.{◌++◌}
use ya_disk_sync.Base.{
  All, In_of_All, sym, ap, In-append_left, ◌≡◌, refl, inl, inr, Bool, true, false, none, some, List,
  [], ◌++◌, In, any,
}
use ya_disk_sync.Base.Result.{Result, ok, err}
use ya_disk_sync.Base.Text.{is_within, Below, contains}
use ya_disk_sync.Scanner.{ScanReport}
use ya_disk_sync.Disk.{YandexDiskError, not_found}
use ya_disk_sync.Sync.LivePlan.{is_relative_path_deleted}
use ya_disk_sync.Sync.Inventory.{trimmed_root}
use ya_disk_sync.Sync.Deletes.{
  collect_coalesced_delete_operations, known_of_plan, known_live_remote_paths, live_directories,
  live_files,
}
use ya_disk_sync.Sync.Summary.{is_stop_error}
use ya_disk_sync.Base.{◌↔◌, ◌∷◌}
use ya_disk_sync.Base.Words.{is_positive_i64}
use ya_disk_sync.Sync.Summary.{root_succeeded, is_failed}
use ya_disk_sync.Sync.Engine.Finish.{IsRecorded, finish_root_cancelled_or_failed-IsRecorded}
use ya_disk_sync.Sync.Engine.{
  finish_root_cancelled_or_failed, finish_as, is_cancelled, call, or_state_error, repository_call,
  update_sync_root_status, cancellation_read, SyncError, Event, remote_delete, Environment, Outcome,
  apply_deletes,
}
use ya_disk_sync.Sync.Engine.DeletionSafety.{apply_deletes_safe, apply_deletes_keeps_live}
use ya_disk_sync.Sync.Engine.DeletionErrors.{IsAttempted, IsCalm, apply_deletes_attempts_each}
use ya_disk_sync.Examples.Data.{
  f_file, a_directory, remote_root, under_root, f_name, x_name, live_plan, live_plan-HasParents,
  inventory_with_extra, root_config, no_totals, root_summary, x_deletion, x_is_deleted,
}

abbrev pub missing : YandexDiskError
missing = record { kind = not_found; message = []; status = some 404; api_code = none }

abbrev scan_report : ScanReport
scan_report = record {
  root_id = [];
  files = f_file false ∷ [];
  directories = a_directory ∷ [];
  skipped = [];
  failed = [];
}

-- The database takes all, the scan finds one directory with one changed file, nobody cancels, and each resource is gone before it is deleted.
abbrev pub env : Environment
env = record {
  repository = λ events c. ok tt;
  operation_id = λ events o. ok 1;
  cancelled = λ events. false;
  metadata = λ events path. err missing;
  delete_permanently = λ events path. err missing;
  create_directory = λ events path. ok tt;
  upload_source = λ events f. ok tt;
  list_recursive = λ events path prune. ok [];
  disk_info = λ events. ok (some 1000, some 0);
  inventory_status = λ events root_id. ok none;
  cached_resources = λ events root_id. ok [];
  run_id = λ events trigger. ok 1;
  try_acquire_run_lock = λ events owner. ok true;
  files = λ events. record { is_dir = λ p. true; path_exists = λ p. true };
  local_metadata = λ events p. some (7, none);
  remove_file = λ events p. ok tt;
  has_snapshot_for_root = λ events root_id. ok true;
  scan_root = λ events root canonical. ok scan_report;
  now = λ events. 0;
  task_cancelled = λ events f. false;
  finished_task = λ events. ok 0;
}

stops : Result (Unit {0}) YandexDiskError → Bool
stops (ok u) = false
stops (err e) = is_stop_error e.kind

env-IsCalm : IsCalm env
unfolding is_stop_error stops
env-IsCalm = record {
  takes = λ events c. refl;
  starts = λ events o. (1, refl);
  runs = λ events. refl;
  goes_on = λ events path e h. sym (ap stops h);
}

apply_deletes_attempts_each_example :
    (o : Outcome) × (new : List Event) × (apply_deletes env 1 root_config no_totals
        (live_plan true)
        inventory_with_extra
        false
        root_summary
        []
      ≡ (ok o, new ++ []))
    × (o.0 ≡ false)
    × All
        (IsAttempted new)
        (collect_coalesced_delete_operations [] remote_root (live_plan true) inventory_with_extra)
apply_deletes_attempts_each_example =
    apply_deletes_attempts_each env 1 root_config no_totals (live_plan true) inventory_with_extra
      root_summary [] env-IsCalm

x_is_requested :
    In
      (remote_delete (under_root x_name))
      (apply_deletes env 1 root_config no_totals
        (live_plan true)
        inventory_with_extra
        false
        root_summary
        []).1
x_is_requested =
    let (o, new, e, g, h) = apply_deletes_attempts_each_example in
    subst
      (λ (z : Result Outcome SyncError × List Event). In (remote_delete (under_root x_name)) z.1)
      (sym e)
      (In-append_left (remote_delete (under_root x_name)) new []
        (In_of_All (IsAttempted new) _ x_deletion h x_is_deleted))

apply_deletes_safe_example :
    Below (under_root x_name) (trimmed_root remote_root)
    × (contains (known_of_plan remote_root (live_plan true)) (under_root x_name) ≡ false)
apply_deletes_safe_example =
    apply_deletes_safe env 1 root_config no_totals (live_plan true) inventory_with_extra false
      root_summary (under_root x_name) x_is_requested

apply_deletes_keeps_live_example : is_within (under_root f_name) (under_root x_name) ≡ false
unfolding known_of_plan known_live_remote_paths live_directories live_files is_relative_path_deleted
    any
apply_deletes_keeps_live_example =
    apply_deletes_keeps_live env 1 root_config no_totals (live_plan true) inventory_with_extra false
      root_summary (under_root x_name) (under_root f_name) (live_plan-HasParents true)
      x_is_requested (inr (inr (inl refl)))

abbrev end_of_root : List Event
end_of_root =
    repository_call (update_sync_root_status [] root_succeeded none) ∷ cancellation_read ∷ []

root_finishes :
    finish_root_cancelled_or_failed env root_config root_summary [] ≡ (ok root_summary, end_of_root)
unfolding finish_root_cancelled_or_failed finish_as is_cancelled call or_state_error pure ◌>>=◌ ◌>>◌
    continue is_positive_i64
root_finishes = refl

finish_root_cancelled_or_failed-IsRecorded_example :
    IsRecorded root_config root_summary [] end_of_root
    × ((root_summary.status ≡ root_succeeded) ↔ (
        (env.cancelled [] ≡ false)
        × (is_failed root_summary.status ≡ false)
        × (is_positive_i64 root_summary.failed_files ≡ false)))
finish_root_cancelled_or_failed-IsRecorded_example =
    finish_root_cancelled_or_failed-IsRecorded env root_config root_summary root_summary []
      end_of_root root_finishes
