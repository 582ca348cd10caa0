-- ===== src/Sync/Engine/Unlisted.antt =====
-- A root whose remote side refuses every question.
use ya_disk_sync.Base.{
  ℕ, ◌≡◌, Bool, true, false, not, Option, none, some, List, ◌++◌, All, Bool-cases, inl, inr, arith,
}
use ya_disk_sync.Base.Result.{Result, ok, err}
use ya_disk_sync.Base.Text.{Text}
use ya_disk_sync.Core.Config.{SyncConfig, SyncRootConfig}
use ya_disk_sync.Disk.{ResourceMetadata, YandexDiskError, is_not_found}
use ya_disk_sync.Scanner.{ScanReport}
use ya_disk_sync.State.{SyncRunSummary, RootRemoteInventoryStatus}
use ya_disk_sync.Sync.LivePlan.{FileSystem, LiveScanPlan, from_scan_report}
use ya_disk_sync.Sync.Plan.{Platform, local_remote_collision}
use ya_disk_sync.Sync.Summary.{RootSyncSummary}
use ya_disk_sync.Sync.Engine.World.{Event, Environment, read_metadata, ask, about_inventory_status}
use ya_disk_sync.Sync.Engine.Emits.{
  Emits, Emits-option, Emits-local_files, Emits-bind, Emits-then, emits_rules,
}
use ya_disk_sync.Sync.Engine.Returns.{
  Returns, Returns-pure, Returns-if, Returns-bind_with, Emits-bind_with,
}
use ya_disk_sync.Sync.Engine.RemoteInventory.{
  RemoteInventorySnapshot, or_critical, snapshot_of_metadata, fresh_inventory, use_cache,
  remote_inventory,
}
use ya_disk_sync.Sync.Engine.Directories.{RootState}
use ya_disk_sync.Sync.Engine.Requests.{IsQuiet, persist-Emits}
use ya_disk_sync.Sync.Engine.Requests.Around.{
  fail-Emits, partial_fail-Emits, subtrees-Emits, findings-Emits, inventory-Emits,
}
use ya_disk_sync.Sync.Engine.Execution.{
  after_inventory, fail_collision, inventory_phase, after_scan, execute_root,
}

-- An error that does not just say that the root is not there yet.
abbrev pub is_refused : Result ResourceMetadata YandexDiskError → Bool
is_refused (ok m) = false
is_refused (err e) = not (is_not_found e.kind)

abbrev pub has_complete_cache : Result (Option RootRemoteInventoryStatus) Text → Bool
has_complete_cache (ok (some status)) = status.is_complete
has_complete_cache (ok none) = false
has_complete_cache (err e) = false

-- The remote side answers each question about a resource with an error, other than that it is not
-- there, and the database has no complete inventory.
pub record IsUnlisted (env : Environment) : Type 0 where
  pub refuses : (events : List Event) (path : Text) → is_refused (env.metadata events path) ≡ true
  pub uncached :
      (events : List Event) (root_id : Text)
      → has_complete_cache (env.inventory_status events root_id) ≡ false

abbrev IsError : Result RemoteInventorySnapshot YandexDiskError → Type 0
IsError (ok s) = ⊥
IsError (err e) = Unit

module _ (env : Environment) (unlisted : IsUnlisted env) (platform : Platform) where
  module _ (ttl_hours : ℕ) (root_id canonical : Text) where
    metadata-fails :
        (prune : List Text) (r : Result ResourceMetadata YandexDiskError)
        → is_refused r ≡ true
        → Returns IsError (snapshot_of_metadata env platform ttl_hours root_id canonical prune r)
    unfolding snapshot_of_metadata
    metadata-fails prune (ok m) h = absurd (false_is_not_true h)
      where
        false_is_not_true : false ≡ true → ⊥
        false_is_not_true e = cc
    metadata-fails prune (err e) h = elim (Bool-cases (is_not_found e.kind)) [
      | inl n ↦ absurd (refused n h)
      | inr n ↦ rw n (Returns-pure _ tt)
    ]
      where
        refused : {b : Bool} → b ≡ true → not b ≡ true → ⊥
        refused k l = ground arith

    fresh-fails :
        (prune : List Text)
        → Returns IsError (fresh_inventory env platform ttl_hours root_id canonical prune)
    unfolding fresh_inventory read_metadata
    fresh-fails prune = Returns-bind_with _ _ answers (λ answer h. metadata-fails prune answer h)
      where
        answers :
            Returns
              (λ (r : Result ResourceMetadata YandexDiskError). is_refused r ≡ true)
              (read_metadata env canonical)
        answers = record { at = λ s. unlisted.refuses s canonical }

    cache-fails :
        (prune : List Text) (r : Result (Option RootRemoteInventoryStatus) Text)
        → has_complete_cache r ≡ false
        → Returns IsError (use_cache env platform ttl_hours root_id canonical prune (or_critical r))
    unfolding use_cache or_critical
    cache-fails prune (err e) h = Returns-pure _ tt
    cache-fails prune (ok none) h = fresh-fails prune
    cache-fails prune (ok (some status)) h = rw h (fresh-fails prune)

    inventory-fails :
        (plan : LiveScanPlan) (force : Bool)
        → Returns IsError (remote_inventory env platform ttl_hours root_id canonical plan force)
    unfolding remote_inventory ask
    inventory-fails plan force =
        Returns-if force _ _ (fresh-fails _)
          (Returns-bind_with _ _ answers (λ answer h. cache-fails _ answer h))
      where
        answers :
            Returns
              (λ (r : Result (Option RootRemoteInventoryStatus) Text). has_complete_cache r ≡ false)
              (ask (about_inventory_status root_id) (λ events. env.inventory_status events root_id))
        answers = record { at = λ s. unlisted.uncached s root_id }

  module _ (sync_config : SyncConfig) (run_id : ℕ) (root : SyncRootConfig)
      (base_summary : SyncRunSummary) where
    after-IsQuiet :
        (available : Option ℕ) (report : ScanReport) (s : RootState)
        (r : Result RemoteInventorySnapshot YandexDiskError)
        → IsError r
        → Emits IsQuiet
            (after_inventory env platform sync_config run_id root base_summary available report s r)
    unfolding after_inventory
    after-IsQuiet available report s (ok snapshot) h = absurd h
    after-IsQuiet available report s (err e) h =
        search (emits_rules, fail-Emits (λ e q. q) env, partial_fail-Emits (λ e q. q) env) depth 14

    phase-IsQuiet :
        (available : Option ℕ) (force : Bool) (report : ScanReport) (s : RootState)
        → Emits IsQuiet (
            inventory_phase env platform sync_config run_id root base_summary available force report
              s)
    unfolding inventory_phase
    phase-IsQuiet available force report s =
        Emits-bind_with _ _ (inventory-Emits (λ e q. q) env platform _ root.id _ s.live_plan force)
          (inventory-fails _ root.id _ s.live_plan force) (after-IsQuiet available report s)

    collision-IsQuiet :
        (message : Text) (s : RootSyncSummary)
        → Emits IsQuiet (fail_collision env platform sync_config run_id root base_summary message s)
    unfolding fail_collision
    collision-IsQuiet message s = search (emits_rules, fail-Emits (λ e q. q) env)

    after_scan-IsQuiet :
        (available : Option ℕ) (force : Bool) (s : RootSyncSummary) (r : Result ScanReport Text)
        → Emits IsQuiet
            (after_scan env platform sync_config run_id root base_summary available force s r)
    unfolding after_scan
    after_scan-IsQuiet available force s (err message) =
        search (emits_rules, fail-Emits (λ e q. q) env)
    after_scan-IsQuiet available force s (ok report) =
        Emits-then _ _ (findings-Emits (λ e q. q) env platform report) (
          Emits-bind _ _ (Emits-local_files env tt) (λ files.
            Emits-bind _ _ (subtrees-Emits (λ e q. q) env run_id base_summary _ _) (λ recorded.
              Emits-then _ _ (persist-Emits (λ e q. q) env run_id base_summary recorded) (
                Emits-option
                  (local_remote_collision (live report files).directories (live report files).files)
                  _ _ (phase-IsQuiet available force report _)
                  (λ message. collision-IsQuiet message recorded)))))
      where
        live : ScanReport → FileSystem → LiveScanPlan
        live r files = from_scan_report files (platform.path_from root.local_path) r

    Emits-execute_root :
        (available : Option ℕ) (force : Bool) (s : RootSyncSummary)
        → Emits IsQuiet
            (execute_root env platform sync_config run_id root base_summary available force s)
    unfolding execute_root
    Emits-execute_root available force s = search (emits_rules, after_scan-IsQuiet) depth 12

-- If the remote side answers every question about a resource with an error, other than that it is not
-- there, and the database has no complete inventory, a root asks the remote side to create, upload
-- and delete nothing, whatever its scan found.
pub execute_root-IsQuiet :
    (env : Environment) (platform : Platform) (sync_config : SyncConfig) (run_id : ℕ)
    (root : SyncRootConfig) (base_summary : SyncRunSummary) (available : Option ℕ) (force : Bool)
    (s : RootSyncSummary) (events : List Event)
    → IsUnlisted env
    → (new : List Event) × ((execute_root env platform sync_config run_id root base_summary
          available force s events).1
        ≡ new ++ events)
      × All IsQuiet new
execute_root-IsQuiet env platform sync_config run_id root base_summary available force s events h =
    (Emits-execute_root env h platform sync_config run_id root base_summary available force s).at
      events
