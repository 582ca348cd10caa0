-- ===== src/Sync/Engine/Requests/Root.antt =====
-- What a root asks of the remote side.
use mathlib.Core.Path.{subst}
use ya_disk_sync.Base.{ℕ, sym, Bool, Option, List}
use ya_disk_sync.Base.Result.{Result, ok, err}
use ya_disk_sync.Base.Text.{Text, Below}
use ya_disk_sync.Core.Config.{SyncConfig, SyncRootConfig}
use ya_disk_sync.Disk.{YandexDiskError}
use ya_disk_sync.Scanner.{LocalFileEntry, ScanReport}
use ya_disk_sync.State.{SyncRunSummary}
use ya_disk_sync.Sync.LivePlan.{FileSystem, LiveScanPlan, from_scan_report}
use ya_disk_sync.Sync.Inventory.{Inventory, trimmed_root}
use ya_disk_sync.Sync.Deletes.{collect_coalesced_delete_operations}
use ya_disk_sync.Sync.Deletes.Safety.{collect_coalesced_delete_operations_extra}
use ya_disk_sync.Sync.Plan.{
  Platform, SyncPlanOperation, build_root_plan, upload_bytes, local_remote_collision,
}
use ya_disk_sync.Sync.Summary.{RootSyncSummary}
use ya_disk_sync.Sync.Engine.World.{
  Event, repository_call, operation_started, cancellation_read, metadata_read, remote_delete,
  remote_create, remote_upload, staging_removed, run_started, lock_requested, question, Environment,
}
use ya_disk_sync.Sync.Engine.Emits.{
  Emits, Emits-option, Emits-weaken, Emits-then, Emits-bind, Emits-local_files, emits_rules,
}
use ya_disk_sync.Sync.Engine.Returns.{Emits-bind_with}
use ya_disk_sync.Sync.Engine.Returns.Canonical.{At, subtrees-Keeps, apply_create_directories-Keeps}
use ya_disk_sync.Sync.Engine.Returns.Uploads.{apply_uploads-Keeps}
use ya_disk_sync.Sync.Engine.Requests.{IsQuiet, persist-Emits, Emits-apply_create_directories}
use ya_disk_sync.Sync.Engine.Requests.Uploads.{Emits-apply_uploads}
use ya_disk_sync.Sync.Engine.Requests.Around.{
  fail-Emits, partial_fail-Emits, finish-Emits, subtrees-Emits, cleanup-Emits, findings-Emits,
  inventory-Emits,
}
use ya_disk_sync.Sync.Engine.DeletionSafety.{Allows, apply_deletes-Allows}
use ya_disk_sync.Sync.Engine.RemoteInventory.{RemoteInventorySnapshot}
use ya_disk_sync.Sync.Engine.Directories.{RootState}
use ya_disk_sync.Sync.Engine.Uploads.{UploadPhaseResult}
use ya_disk_sync.Sync.Engine.Deletions.{apply_deletes}
use ya_disk_sync.Sync.Engine.Execution.{
  exceeded_quota, delete_phase, upload_phase, create_phase, fail_quota, after_inventory,
  fail_collision, inventory_phase, count_scanned, after_scan, execute_root,
}

module _ {P : Event → Type 0} (quiet : (e : Event) → IsQuiet e → P e) (c : Text)
    (deletes : (path : Text) → Below path (trimmed_root c) → P (remote_delete path))
    (env : Environment) (run_id : ℕ) (root : SyncRootConfig) (base_summary : SyncRunSummary) where
  allowed :
      (plan : LiveScanPlan) (inventory : Inventory) (e : Event)
      → Allows (collect_coalesced_delete_operations root.id c plan inventory) e
      → P e
  allowed plan inventory (remote_delete path) (op, i, same) = deletes path (
      subst (λ (z : Text). Below z (trimmed_root c)) (sym same)
        (collect_coalesced_delete_operations_extra root.id c plan inventory op i).0)
  allowed plan inventory (remote_create path) h = absurd h
  allowed plan inventory (remote_upload f) h = absurd h
  allowed plan inventory (repository_call call) h = quiet _ tt
  allowed plan inventory (operation_started o) h = quiet _ tt
  allowed plan inventory cancellation_read h = quiet _ tt
  allowed plan inventory (metadata_read path) h = quiet _ tt
  allowed plan inventory (staging_removed path) h = quiet _ tt
  allowed plan inventory (run_started trigger) h = quiet _ tt
  allowed plan inventory (lock_requested owner) h = quiet _ tt
  allowed plan inventory (question q) h = quiet _ tt

  pub Emits-apply_deletes :
      (plan : LiveScanPlan) (inventory : Inventory) (cached : Bool) (s : RootSyncSummary)
      → At c s
      → Emits P (apply_deletes env run_id root base_summary plan inventory cached s)
  Emits-apply_deletes plan inventory cached s h =
      Emits-weaken
        (λ e a. allowed plan inventory e (
          subst
            (λ (z : Text). Allows (collect_coalesced_delete_operations root.id z plan inventory) e)
            h a))
        _ (apply_deletes-Allows env run_id root base_summary plan inventory cached s)

  module _ (platform : Platform) (sync_config : SyncConfig) where
    pub delete_phase-Emits :
        (snapshot : RemoteInventorySnapshot) (done : UploadPhaseResult) (s : RootState)
        → At c s.root_summary
        → Emits P (delete_phase env platform sync_config run_id root base_summary snapshot done s)
    unfolding delete_phase
    delete_phase-Emits snapshot done s h =
        search
          (
            emits_rules,
            Emits-apply_deletes,
            finish-Emits quiet env,
            persist-Emits quiet env run_id base_summary,
          )
          depth 12

  module _ (creates : (path : Text) → P (remote_create path))
      (uploads : (f : LocalFileEntry) → P (remote_upload f)) (platform : Platform)
      (sync_config : SyncConfig) where
    upload_phase-Emits :
        (report : ScanReport) (plan : List SyncPlanOperation) (snapshot : RemoteInventorySnapshot)
        (s : RootState)
        → At c s.root_summary
        → Emits P
            (upload_phase env platform sync_config run_id root base_summary report plan snapshot s)
    unfolding upload_phase
    upload_phase-Emits report plan snapshot s h =
        Emits-bind_with _ _
          (Emits-apply_uploads quiet env run_id base_summary platform uploads _ _ plan s)
          (apply_uploads-Keeps c env run_id base_summary platform _ _ plan s h)
          (λ outcome k.
            search
              (
                emits_rules,
                quiet,
                cleanup-Emits quiet env,
                finish-Emits quiet env,
                delete_phase-Emits platform sync_config,
              )
              depth 14)

    create_phase-Emits :
        (report : ScanReport) (plan : List SyncPlanOperation) (snapshot : RemoteInventorySnapshot)
        (s : RootState)
        → At c s.root_summary
        → Emits P
            (create_phase env platform sync_config run_id root base_summary report plan snapshot s)
    unfolding create_phase
    create_phase-Emits report plan snapshot s h =
        Emits-bind_with _ _
          (Emits-apply_create_directories quiet env run_id base_summary platform root creates _ plan
            s)
          (apply_create_directories-Keeps c env run_id base_summary platform root _ plan s h)
          (λ created k.
            search
              (
                emits_rules,
                quiet,
                cleanup-Emits quiet env,
                finish-Emits quiet env,
                upload_phase-Emits,
              )
              depth 14)

    quota-Emits :
        (planned available : ℕ) (s : RootSyncSummary)
        → Emits P (fail_quota env platform sync_config run_id root base_summary planned available s)
    unfolding fail_quota
    quota-Emits planned available s = search (emits_rules, fail-Emits quiet env)

    after_inventory-Emits :
        (available : Option ℕ) (report : ScanReport) (s : RootState)
        (r : Result RemoteInventorySnapshot YandexDiskError)
        → At c s.root_summary
        → Emits P
            (after_inventory env platform sync_config run_id root base_summary available report s r)
    unfolding after_inventory
    after_inventory-Emits available report s (ok snapshot) h =
        Emits-option
          (exceeded_quota available (
            upload_bytes (
              build_root_plan platform root s.root_summary.canonical_remote_path s.live_plan
                snapshot.resources)))
          _ _ (create_phase-Emits report _ snapshot s h) (λ left. quota-Emits _ left s.root_summary)
    after_inventory-Emits available report s (err e) h =
        search (emits_rules, quiet, fail-Emits quiet env, partial_fail-Emits quiet env) depth 14

    collision-Emits :
        (message : Text) (s : RootSyncSummary)
        → Emits P (fail_collision env platform sync_config run_id root base_summary message s)
    unfolding fail_collision
    collision-Emits message s = search (emits_rules, fail-Emits quiet env)

    inventory_phase-Emits :
        (available : Option ℕ) (force : Bool) (report : ScanReport) (s : RootState)
        → At c s.root_summary
        → Emits P (
            inventory_phase env platform sync_config run_id root base_summary available force report
              s)
    unfolding inventory_phase
    inventory_phase-Emits available force report s h =
        search (emits_rules, inventory-Emits quiet env, after_inventory-Emits) depth 12

    after_scan-Emits :
        (available : Option ℕ) (force : Bool) (s : RootSyncSummary) (r : Result ScanReport Text)
        → At c s
        → Emits P (after_scan env platform sync_config run_id root base_summary available force s r)
    unfolding after_scan count_scanned
    after_scan-Emits available force s (err message) h = search (emits_rules, fail-Emits quiet env)
    after_scan-Emits available force s (ok report) h =
        Emits-then _ _ (findings-Emits quiet env platform report) (
          Emits-bind _ _ (Emits-local_files env (quiet _ tt)) (λ files.
            Emits-bind_with _ _ (subtrees-Emits quiet env run_id base_summary _ _)
              (subtrees-Keeps c env run_id _ (count_scanned (live report files) report s) h)
              (λ recorded k. Emits-then _ _ (persist-Emits quiet env run_id base_summary recorded) (
                Emits-option (collision report files) _ _
                  (inventory_phase-Emits available force report (state report files recorded) k)
                  (λ message. collision-Emits message recorded)))))
      where
        live : ScanReport → FileSystem → LiveScanPlan
        live r files = from_scan_report files (platform.path_from root.local_path) r

        collision : ScanReport → FileSystem → Option Text
        collision r files = local_remote_collision (live r files).directories (live r files).files

        state : ScanReport → FileSystem → RootSyncSummary → RootState
        state r files recorded = record { live_plan = live r files; root_summary = recorded }

    pub Emits-execute_root :
        (available : Option ℕ) (force : Bool) (s : RootSyncSummary)
        → At c s
        → Emits P (execute_root env platform sync_config run_id root base_summary available force s)
    unfolding execute_root
    Emits-execute_root available force s h = search (emits_rules, quiet, after_scan-Emits) depth 12
