-- ===== src/Examples/Run.antt =====
-- A root and a run at concrete inputs.
use ya_disk_sync.Base.{
  ◌≡◌, ◌≢◌, refl, ◌↔◌, ℕ, true, false, none, some, List, [], ◌∷◌, ◌++◌, All, length, arith,
}
use ya_disk_sync.Base.Result.{ok, err}
use ya_disk_sync.Disk.{YandexDiskError, auth_unavailable}
use ya_disk_sync.State.{SyncRunTrigger}
use ya_disk_sync.Sync.Batch.{Upload}
use ya_disk_sync.Sync.Engine.{Event, Environment, repair_interrupted_runs}
use ya_disk_sync.Sync.Engine.Directories.{RootState, create_rounds}
use ya_disk_sync.Sync.Engine.Uploads.{upload_rounds}
use ya_disk_sync.Sync.Engine.Execution.{execute_root}
use ya_disk_sync.Sync.Engine.Run.Once.{
  SyncRunOptions, MigrationRunOptions, MigrationRunReport, must_migrate, should_auto_migrate,
  has_no_snapshot, run_with_lock, run_once,
}
use ya_disk_sync.Base.Exec.{pure, fail, continue, ◌>>=◌}
use ya_disk_sync.Sync.Engine.{M, migration_error, local_files, ask, lift, or_state_error}
use ya_disk_sync.Sync.Engine.Run.Lock.{IsReleased, with_lock, repaired, run_with_lock-IsReleased}
use ya_disk_sync.Sync.Engine.Requests.{IsQuiet}
use ya_disk_sync.Sync.Engine.Requests.Run.{DeletesManaged, run_once-DeletesManaged}
use ya_disk_sync.Sync.Engine.Order.{IsOrdered, phases}
use ya_disk_sync.Sync.Engine.Order.Root.{execute_root-IsOrdered}
use ya_disk_sync.Sync.Engine.Rounds.{upload_rounds-enough, create_rounds-enough}
use ya_disk_sync.Sync.Engine.Unlisted.{IsUnlisted, execute_root-IsQuiet}
use ya_disk_sync.Examples.Core.{outside, sync_config, config}
use ya_disk_sync.Examples.Data.{
  a_directory, f_file, live_plan, platform, root_config, no_totals, root_summary,
}
use ya_disk_sync.Examples.Engine.{env}

abbrev pub options : SyncRunOptions
options = record { trigger = SyncRunTrigger.manual; lock_owner = []; force_remote_rescan = false }

-- A migration that does nothing but fail.
abbrev no_migration : MigrationRunOptions → M MigrationRunReport
no_migration _ = fail (migration_error [])

no_handover : (must_migrate env platform config options []).0 ≢ ok true
unfolding must_migrate should_auto_migrate has_no_snapshot local_files ask ◌>>=◌ continue pure lift
    or_state_error
no_handover h = cc

run_once-DeletesManaged_example :
    All (DeletesManaged config) (run_once env platform config no_migration outside options []).1
run_once-DeletesManaged_example =
    run_once-DeletesManaged env platform config no_migration outside options no_handover

execute_root-IsOrdered_example :
    (new : List Event) × ((execute_root env platform sync_config 1 root_config no_totals none false
        root_summary []).1
      ≡ new ++ [])
    × IsOrdered (phases new)
execute_root-IsOrdered_example =
    execute_root-IsOrdered env platform sync_config 1 root_config no_totals none false root_summary
      []

run_with_lock-IsReleased_example :
    IsReleased [] (run_with_lock env platform config options []).1 ↔ (
      (env.repository (with_lock options []) repair_interrupted_runs ≡ ok tt)
      × ((id : ℕ) × (env.run_id (repaired options []) SyncRunTrigger.manual ≡ ok id)))
run_with_lock-IsReleased_example = run_with_lock-IsReleased env platform config options [] refl

abbrev root_state : RootState
root_state = record { live_plan = live_plan false; root_summary = root_summary }

abbrev two_uploads : List Upload
two_uploads = (f_file false, false) ∷ (f_file false, true) ∷ []

upload_rounds-enough_example :
    upload_rounds env 1 no_totals platform 1 100 5 two_uploads (root_state, 0) []
    ≡ upload_rounds env 1 no_totals platform 1 100
        (length two_uploads)
        two_uploads
        (root_state, 0)
        []
upload_rounds-enough_example =
    upload_rounds-enough env 1 no_totals platform 1 100 5 two_uploads (root_state, 0) []
      (omega arith) (omega arith)

create_rounds-enough_example :
    create_rounds env 1 no_totals platform root_config 3 1 (a_directory ∷ []) root_state []
    ≡ create_rounds env 1 no_totals platform root_config 1 1 (a_directory ∷ []) root_state []
create_rounds-enough_example =
    create_rounds-enough env 1 no_totals platform root_config 1 3 (a_directory ∷ []) root_state []
      (omega arith) (omega arith)

abbrev refusal : YandexDiskError
refusal = record { kind = auth_unavailable; message = []; status = some 401; api_code = none }

-- The token has been revoked.
abbrev shut_env : Environment
shut_env = record env { metadata = λ events path. err refusal }

shut_env-IsUnlisted : IsUnlisted shut_env
shut_env-IsUnlisted = record { refuses = λ events path. refl; uncached = λ events root_id. refl }

execute_root-IsQuiet_example :
    (new : List Event) × ((execute_root shut_env platform sync_config 1 root_config no_totals none
        false root_summary []).1
      ≡ new ++ [])
    × All IsQuiet new
execute_root-IsQuiet_example =
    execute_root-IsQuiet shut_env platform sync_config 1 root_config no_totals none false
      root_summary [] shut_env-IsUnlisted
