-- ===== src/Sync/Engine/Order/Root.antt =====
-- The order of the phases of a root.
use ya_disk_sync.Base.{ℕ, ◌≤◌, ◌≡◌, refl, Bool, Option, List, ◌++◌, arith}
use ya_disk_sync.Base.Result.{Result, ok, err}
use ya_disk_sync.Base.Text.{Text}
use ya_disk_sync.Core.Config.{SyncConfig, SyncRootConfig}
use ya_disk_sync.Disk.{YandexDiskError}
use ya_disk_sync.Scanner.{ScanReport}
use ya_disk_sync.State.{SyncRunSummary}
use ya_disk_sync.Sync.LivePlan.{FileSystem, LiveScanPlan, from_scan_report}
use ya_disk_sync.Sync.Plan.{
  Platform, SyncPlanOperation, build_root_plan, upload_bytes, local_remote_collision,
}
use ya_disk_sync.Sync.Summary.{RootSyncSummary}
use ya_disk_sync.Sync.Engine.World.{Event, Environment, M}
use ya_disk_sync.Base.Exec.{◌>>=◌, ◌>>◌}
use ya_disk_sync.Sync.Engine.Uploads.{UploadPhaseResult}
use ya_disk_sync.Sync.Engine.Emits.{Emits, Emits-local_files, emits_rules}
use ya_disk_sync.Sync.Engine.Requests.{persist-Emits, Emits-apply_create_directories}
use ya_disk_sync.Sync.Engine.Requests.Uploads.{Emits-apply_uploads}
use ya_disk_sync.Sync.Engine.Requests.Around.{
  fail-Emits, partial_fail-Emits, finish-Emits, subtrees-Emits, cleanup-Emits, findings-Emits,
  inventory-Emits,
}
use ya_disk_sync.Sync.Engine.Requests.Root.{delete_phase-Emits}
use ya_disk_sync.Sync.Engine.RemoteInventory.{RemoteInventorySnapshot}
use ya_disk_sync.Sync.Engine.Directories.{RootState}
use ya_disk_sync.Sync.Engine.Execution.{
  exceeded_quota, delete_phase, upload_phase, create_phase, fail_quota, after_inventory,
  fail_collision, inventory_phase, after_scan, execute_root,
}
use ya_disk_sync.Sync.Engine.Order.{
  phases, IsOrdered, InPhase, quiet, Ordered, Ordered-of_Emits, Ordered-bind, Ordered-if,
  Ordered-option, Ordered-widen,
}

-- An action that asks for nothing, and then one in any phases.
then-Ordered :
    {A B : Type 0} (low high : ℕ) (m : M A) (f : A → M B)
    → low ≤ high
    → Emits (InPhase low) m
    → ((a : A) → Ordered low high (f a))
    → Ordered low high (m >>= f)
then-Ordered low high m f o km kf =
    Ordered-bind low low low high m f (omega arith) (omega arith) o (Ordered-of_Emits low m km) kf

-- An action in one phase is an action in any range around it.
in_range :
    {A : Type 0} (low n high : ℕ) (m : M A)
    → low ≤ n
    → n ≤ high
    → Emits (InPhase n) m
    → Ordered low high m
in_range low n high m l h k =
    Ordered-widen n low n high m l h (omega arith) (Ordered-of_Emits n m k)

module _ (env : Environment) (platform : Platform) (sync_config : SyncConfig) (run_id : ℕ)
    (root : SyncRootConfig) (base_summary : SyncRunSummary) where
  delete_phase-phase :
      (snapshot : RemoteInventorySnapshot) (done : UploadPhaseResult) (s : RootState)
      → Emits
          (InPhase 2)
          (delete_phase env platform sync_config run_id root base_summary snapshot done s)
  delete_phase-phase snapshot done s =
      delete_phase-Emits (quiet 2) s.root_summary.canonical_remote_path (λ path b. refl) env run_id
        root base_summary platform sync_config snapshot done s refl

  upload_phase-Ordered :
      (report : ScanReport) (plan : List SyncPlanOperation) (snapshot : RemoteInventorySnapshot)
      (s : RootState)
      → Ordered 1 2
          (upload_phase env platform sync_config run_id root base_summary report plan snapshot s)
  unfolding upload_phase
  upload_phase-Ordered report plan snapshot s =
      Ordered-bind 1 1 2 2 _ _ (omega arith) (omega arith) (omega arith)
        (Ordered-of_Emits 1 _
          (Emits-apply_uploads (quiet 1) env run_id base_summary platform (λ f. refl) _ _ plan s))
        (λ outcome. Ordered-of_Emits 2 _ (
          search
            (
              emits_rules,
              quiet 2,
              cleanup-Emits (quiet 2) env,
              finish-Emits (quiet 2) env,
              delete_phase-phase,
            )
            depth 14))

  create_phase-Ordered :
      (report : ScanReport) (plan : List SyncPlanOperation) (snapshot : RemoteInventorySnapshot)
      (s : RootState)
      → Ordered 0 2
          (create_phase env platform sync_config run_id root base_summary report plan snapshot s)
  unfolding create_phase
  create_phase-Ordered report plan snapshot s =
      Ordered-bind 0 0 1 2 _ _ (omega arith) (omega arith) (omega arith)
        (Ordered-of_Emits 0 _ (
          Emits-apply_create_directories (quiet 0) env run_id base_summary platform root
            (λ path. refl) _ plan s))
        (λ created. then-Ordered 1 2 _ _ (omega arith) (search (emits_rules, quiet 1)) (λ stopped.
          Ordered-if 1 2 stopped _ _
            (in_range 1 1 2 _ (omega arith) (omega arith) (
              search (emits_rules, cleanup-Emits (quiet 1) env, finish-Emits (quiet 1) env) depth
                12))
            (upload_phase-Ordered report plan snapshot created.1)))

  quota-phase :
      (planned available : ℕ) (s : RootSyncSummary)
      → Emits
          (InPhase 0)
          (fail_quota env platform sync_config run_id root base_summary planned available s)
  unfolding fail_quota
  quota-phase planned available s = search (emits_rules, fail-Emits (quiet 0) env)

  after_inventory-Ordered :
      (available : Option ℕ) (report : ScanReport) (s : RootState)
      (r : Result RemoteInventorySnapshot YandexDiskError)
      → Ordered 0 2
          (after_inventory env platform sync_config run_id root base_summary available report s r)
  unfolding after_inventory
  after_inventory-Ordered available report s (ok snapshot) =
      Ordered-option 0 2
        (exceeded_quota available (
          upload_bytes (
            build_root_plan platform root s.root_summary.canonical_remote_path s.live_plan
              snapshot.resources)))
        _ _ (create_phase-Ordered report _ snapshot s)
        (λ left. in_range 0 0 2 _ (omega arith) (omega arith) (quota-phase _ left s.root_summary))
  after_inventory-Ordered available report s (err e) =
      in_range 0 0 2 _ (omega arith) (omega arith) (
        search (emits_rules, quiet 0, fail-Emits (quiet 0) env, partial_fail-Emits (quiet 0) env)
          depth 14)

  inventory_phase-Ordered :
      (available : Option ℕ) (force : Bool) (report : ScanReport) (s : RootState)
      → Ordered 0 2 (
          inventory_phase env platform sync_config run_id root base_summary available force report
            s)
  unfolding inventory_phase
  inventory_phase-Ordered available force report s =
      then-Ordered 0 2 _ _ (omega arith) (search (inventory-Emits (quiet 0) env))
        (after_inventory-Ordered available report s)

  collision-phase :
      (message : Text) (s : RootSyncSummary)
      → Emits
          (InPhase 0)
          (fail_collision env platform sync_config run_id root base_summary message s)
  unfolding fail_collision
  collision-phase message s = search (emits_rules, fail-Emits (quiet 0) env)

  after_scan-Ordered :
      (available : Option ℕ) (force : Bool) (s : RootSyncSummary) (r : Result ScanReport Text)
      → Ordered 0 2
          (after_scan env platform sync_config run_id root base_summary available force s r)
  unfolding after_scan ◌>>◌
  after_scan-Ordered available force s (err message) =
      in_range 0 0 2 _ (omega arith) (omega arith) (search (emits_rules, fail-Emits (quiet 0) env))
  after_scan-Ordered available force s (ok report) =
      then-Ordered 0 2 _ _ (omega arith) (findings-Emits (quiet 0) env platform report) (λ u.
        then-Ordered 0 2 _ _ (omega arith) (Emits-local_files env tt) (λ files.
          then-Ordered 0 2 _ _ (omega arith) (subtrees-Emits (quiet 0) env run_id base_summary _ _)
            (λ recorded.
              then-Ordered 0 2 _ _ (omega arith)
                (persist-Emits (quiet 0) env run_id base_summary recorded)
                (λ v.
                  Ordered-option 0 2 (collision report files) _ _
                    (inventory_phase-Ordered available force report (state report files recorded))
                    (λ message.
                      in_range 0 0 2 _ (omega arith) (omega arith)
                        (collision-phase message recorded))))))
    where
      live : ScanReport → FileSystem → LiveScanPlan
      live r files = from_scan_report files (platform.path_from root.local_path) r

      collision : ScanReport → FileSystem → Option Text
      collision r files = local_remote_collision (live r files).directories (live r files).files

      state : ScanReport → FileSystem → RootSyncSummary → RootState
      state r files recorded = record { live_plan = live r files; root_summary = recorded }

  execute_root-Ordered :
      (available : Option ℕ) (force : Bool) (s : RootSyncSummary)
      → Ordered 0 2
          (execute_root env platform sync_config run_id root base_summary available force s)
  unfolding execute_root
  execute_root-Ordered available force s =
      then-Ordered 0 2 _ _ (omega arith) (search (emits_rules, quiet 0))
        (after_scan-Ordered available force s)

-- Whatever the scan, the database, the remote side and the cancellation do, a root adds only new
-- events to the history, and their requests stand in order: every creation of a directory before
-- every upload, and every upload before every deletion.
pub execute_root-IsOrdered :
    (env : Environment) (platform : Platform) (sync_config : SyncConfig) (run_id : ℕ)
    (root : SyncRootConfig) (base_summary : SyncRunSummary) (available : Option ℕ) (force : Bool)
    (s : RootSyncSummary) (events : List Event)
    → (new : List Event) × ((execute_root env platform sync_config run_id root base_summary
          available force s events).1
        ≡ new ++ events)
      × IsOrdered (phases new)
execute_root-IsOrdered env platform sync_config run_id root base_summary available force s events =
    let (new, e, b, o) =
      (execute_root-Ordered env platform sync_config run_id root base_summary available force s).at
        events in
    (new, e, o)
