-- ===== src/Sync/Engine/Requests/Around.antt =====
-- What a root asks of the remote side around its phases.
use ya_disk_sync.Base.{ℕ, Bool, Option, none, some, List, [], ◌∷◌}
use ya_disk_sync.Base.Result.{Result, ok, err}
use ya_disk_sync.Base.Text.{Text}
use ya_disk_sync.Core.Config.{SyncRootConfig}
use ya_disk_sync.Disk.{ResourceMetadata, YandexDiskError}
use ya_disk_sync.Scanner.{LocalFileEntry, SkippedScanItem, FailedScanItem, ScanReport}
use ya_disk_sync.State.{SyncRunSummary, RootRemoteInventoryStatus}
use ya_disk_sync.Sync.LivePlan.{LiveScanPlan, DeletedLocalSubtree}
use ya_disk_sync.Sync.Inventory.{Inventory}
use ya_disk_sync.Sync.Plan.{Platform}
use ya_disk_sync.Sync.Summary.{RootStatus, RootSyncSummary}
use ya_disk_sync.Sync.Engine.World.{Event, Environment, IoError, RepositoryCall}
use ya_disk_sync.Sync.Engine.Emits.{Emits, Emits-option, emits_rules}
use ya_disk_sync.Sync.Engine.RemoteInventory.{
  persist_remote_inventory_snapshot, snapshot_of_listing, snapshot_of_metadata, fresh_inventory,
  cached_inventory, use_cache, remote_inventory,
}
use ya_disk_sync.Sync.Engine.Requests.{IsQuiet, subtree-Emits}
use ya_disk_sync.Sync.Engine.Roots.{
  fail_root_as, fail_root, partial_fail_root, finish_as, finish_root_cancelled_or_failed,
  record_deleted_subtrees, record_missing_root,
}
use ya_disk_sync.Sync.Engine.Staging.{
  scanner_call, cleanup_outcome, cleanup_staging_files, record_skipped_items, record_failed_items,
  record_scan_findings,
}

module _ {P : Event → Type 0} (quiet : (e : Event) → IsQuiet e → P e) (env : Environment) where
  module _ (root : SyncRootConfig) (s : RootSyncSummary) where
    fail_as-Emits :
        (status : RootStatus) (operation kind message : Text)
        → Emits P (fail_root_as env status root s operation kind message)
    unfolding fail_root_as
    fail_as-Emits status operation kind message = search (emits_rules, quiet)

    pub fail-Emits :
        (operation kind message : Text) → Emits P (fail_root env root s operation kind message)
    unfolding fail_root
    fail-Emits operation kind message = search fail_as-Emits

    pub partial_fail-Emits :
        (operation kind message : Text)
        → Emits P (partial_fail_root env root s operation kind message)
    unfolding partial_fail_root
    partial_fail-Emits operation kind message = search fail_as-Emits

    finish_as-Emits : Emits P (finish_as env root s)
    unfolding finish_as
    finish_as-Emits = search (emits_rules, quiet) depth 9

    pub finish-Emits : Emits P (finish_root_cancelled_or_failed env root s)
    unfolding finish_root_cancelled_or_failed
    finish-Emits = search (emits_rules, quiet, finish_as-Emits) depth 9

    pub missing-Emits : Emits P (record_missing_root env root s)
    unfolding record_missing_root
    missing-Emits = search (emits_rules, quiet)

  pub subtrees-Emits :
      (run_id : ℕ) (base_summary : SyncRunSummary) (subtrees : List DeletedLocalSubtree)
      (s : RootSyncSummary)
      → Emits P (record_deleted_subtrees env run_id subtrees s)
  unfolding record_deleted_subtrees
  subtrees-Emits run_id base_summary [] s = search emits_rules
  subtrees-Emits run_id base_summary (subtree ∷ subtrees) s = search (
    emits_rules,
    subtree-Emits quiet env run_id base_summary,
    subtrees-Emits run_id base_summary subtrees,
  )

  scanner_call-Emits : (c : RepositoryCall) → Emits P (scanner_call env c)
  unfolding scanner_call
  scanner_call-Emits c = search (emits_rules, quiet)

  cleanup_outcome-Emits : (r : Result (Unit {0}) IoError) → Emits P (cleanup_outcome env r)
  unfolding cleanup_outcome
  cleanup_outcome-Emits (ok u) = search emits_rules
  cleanup_outcome-Emits (err e) = search emits_rules

  pub cleanup-Emits : (files : List LocalFileEntry) → Emits P (cleanup_staging_files env files)
  unfolding cleanup_staging_files
  cleanup-Emits [] = search emits_rules
  cleanup-Emits (f ∷ files) =
      let rest = cleanup-Emits files in
      Emits-option f.sqlite_backup_staging_path _ _ rest
        (λ staged. search (emits_rules, quiet, cleanup_outcome-Emits) depth 9)

  module _ (platform : Platform) where
    skipped_items-Emits :
        (items : List SkippedScanItem) → Emits P (record_skipped_items env platform items)
    unfolding record_skipped_items
    skipped_items-Emits [] = search emits_rules
    skipped_items-Emits (item ∷ items) =
        let rest = skipped_items-Emits items in search (emits_rules, scanner_call-Emits)

    failed_items-Emits :
        (items : List FailedScanItem) → Emits P (record_failed_items env platform items)
    unfolding record_failed_items
    failed_items-Emits [] = search emits_rules
    failed_items-Emits (item ∷ items) =
        let rest = failed_items-Emits items in search (emits_rules, scanner_call-Emits)

    pub findings-Emits : (report : ScanReport) → Emits P (record_scan_findings env platform report)
    unfolding record_scan_findings
    findings-Emits report = search (emits_rules, skipped_items-Emits, failed_items-Emits)

    module _ (ttl_hours : ℕ) (root_id canonical : Text) where
      persisted-Emits :
          (resources : List ResourceMetadata)
          → Emits P
              (persist_remote_inventory_snapshot env platform ttl_hours root_id canonical resources)
      unfolding persist_remote_inventory_snapshot
      persisted-Emits resources = search (emits_rules, quiet)

      listing-Emits :
          (resources : Inventory) (r : Result (List ResourceMetadata) YandexDiskError)
          → Emits P (snapshot_of_listing env platform ttl_hours root_id canonical resources r)
      unfolding snapshot_of_listing
      listing-Emits resources (ok listed) = search (emits_rules, persisted-Emits)
      listing-Emits resources (err e) = search emits_rules

      metadata-Emits :
          (prune : List Text) (r : Result ResourceMetadata YandexDiskError)
          → Emits P (snapshot_of_metadata env platform ttl_hours root_id canonical prune r)
      unfolding snapshot_of_metadata
      metadata-Emits prune (ok m) = search (emits_rules, quiet, listing-Emits)
      metadata-Emits prune (err e) = search emits_rules

      fresh-Emits :
          (prune : List Text)
          → Emits P (fresh_inventory env platform ttl_hours root_id canonical prune)
      unfolding fresh_inventory
      fresh-Emits prune = search (emits_rules, quiet, metadata-Emits)

      cached-Emits : Emits P (cached_inventory env platform ttl_hours root_id canonical)
      unfolding cached_inventory
      cached-Emits = search (emits_rules, quiet)

      cache-Emits :
          (prune : List Text) (r : Result (Option RootRemoteInventoryStatus) YandexDiskError)
          → Emits P (use_cache env platform ttl_hours root_id canonical prune r)
      unfolding use_cache
      cache-Emits prune (err e) = search emits_rules
      cache-Emits prune (ok none) = search fresh-Emits
      cache-Emits prune (ok (some status)) =
          search (emits_rules, quiet, fresh-Emits, cached-Emits) depth 12

      pub inventory-Emits :
          (plan : LiveScanPlan) (force : Bool)
          → Emits P (remote_inventory env platform ttl_hours root_id canonical plan force)
      unfolding remote_inventory
      inventory-Emits plan force = search (emits_rules, quiet, fresh-Emits, cache-Emits) depth 12
