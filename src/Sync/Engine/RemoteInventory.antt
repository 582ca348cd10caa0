-- ===== src/Sync/Engine/RemoteInventory.antt =====
-- `remote_inventory`: the inventory of a root, from the cache or from a fresh listing.
use ya_disk_sync.Base.{
  ℕ, ◌+◌, ◌*◌, Bool, true, false, Option, none, some, List, [], ◌∷◌, map, leb, length,
  if◌then◌else◌,
}
use ya_disk_sync.Base.Result.{Result, ok, err}
use ya_disk_sync.Base.Words.{u64_to_i64}
use ya_disk_sync.Base.Text.{Text}
use ya_disk_sync.Disk.{ResourceMetadata, YandexDiskError, is_not_found, critical_error}
use ya_disk_sync.State.{RootRemoteInventoryStatus, RemoteResourceRecord}
use ya_disk_sync.Sync.LivePlan.{LiveScanPlan, prune_remote_prefixes}
use ya_disk_sync.Sync.Inventory.{
  Inventory, insert_resource, insert_all, values, cached_resource_to_metadata,
  remote_resource_record,
}
use ya_disk_sync.Sync.Plan.{Platform}
use ya_disk_sync.Base.Exec.{pure, ◌>>=◌, ◌>>◌}
use ya_disk_sync.Sync.Engine.ErrorText.{sync_error_to_string}
use ya_disk_sync.Sync.Engine.World.{
  SyncError, Environment, M, call, ask, attempt, read_metadata, about_inventory_status,
  about_cached_resources, about_listing, about_time, replace_remote_resources_for_root,
  set_root_remote_inventory_status,
}

pub record RemoteInventorySnapshot : Type 0 where
  pub resources : Inventory
  pub from_cache : Bool

unfoldable pub is_expired_at : Option ℕ → ℕ → Bool
is_expired_at none now = true
is_expired_at (some expires_at) now = leb expires_at now

unfoldable pub is_remote_inventory_expired : (Text → Option ℕ) → ℕ → Option Text → Bool
unfolding is_expired_at
is_remote_inventory_expired parse now none = true
is_remote_inventory_expired parse now (some expires_at) = is_expired_at (parse expires_at) now

-- The resources of the cache that lie at or below the root.
unfoldable pub known_resources : Text → List RemoteResourceRecord → List ResourceMetadata
known_resources root [] = []
known_resources root (r ∷ rs) =
    let rest = known_resources root rs in
    elim (cached_resource_to_metadata root r) [ none ↦ rest | some m ↦ m ∷ rest ]

-- `map_err(|error| YandexDiskError::critical(error.to_string()))`
unfoldable pub or_critical : {A : Type 0} → Result A Text → Result A YandexDiskError
unfolding critical_error
or_critical (ok a) = ok a
or_critical (err e) = err (critical_error e)

unfoldable pub or_critical_sync : Result (Unit {0}) SyncError → Result (Unit {0}) YandexDiskError
unfolding critical_error sync_error_to_string
or_critical_sync (ok a) = ok a
or_critical_sync (err e) = err (critical_error (sync_error_to_string e))

-- A call whose error is an error of the client.
abbrev Answer : Type 0 → Type 0
Answer A = M (Result A YandexDiskError)

unfoldable pub fresh : Inventory → Result RemoteInventorySnapshot YandexDiskError
fresh resources = ok (record { resources = resources; from_cache = false })

module _ (env : Environment) (platform : Platform) (ttl_hours : ℕ)
    (root_id canonical_remote_path : Text) where
  -- The length of the list fits into an i64.
  unfoldable pub persist_remote_inventory_snapshot : List ResourceMetadata → M (Unit {0})
  persist_remote_inventory_snapshot resources = do
    let records = map (remote_resource_record root_id) resources
    call env (replace_remote_resources_for_root root_id records)
    now ← ask about_time env.now
    call env (
        set_root_remote_inventory_status (record {
          root_id = root_id;
          is_complete = true;
          snapshot_completed_at_utc = some (platform.format_timestamp now);
          snapshot_expires_at_utc = some (platform.format_timestamp (now + 3600 * ttl_hours));
          resource_count = u64_to_i64 (length records);
          last_error = none;
        }))

  unfoldable pub snapshot_of_listing :
      Inventory → Result (List ResourceMetadata) YandexDiskError → Answer RemoteInventorySnapshot
  snapshot_of_listing resources (ok listed) = do
    let all = insert_all resources listed
    persisted ← attempt (persist_remote_inventory_snapshot (values all))
    pure (elim (or_critical_sync persisted) [ ok u ↦ fresh all | err e ↦ err e ])
  snapshot_of_listing resources (err error) =
      pure (if is_not_found error.kind then fresh resources else err error)

  unfoldable pub snapshot_of_metadata :
      List Text → Result ResourceMetadata YandexDiskError → Answer RemoteInventorySnapshot
  snapshot_of_metadata prune (ok root) = do
    answer ←
        ask (about_listing canonical_remote_path prune)
          (λ events. env.list_recursive events canonical_remote_path prune)
    snapshot_of_listing (insert_resource [] root.path root) answer
  snapshot_of_metadata prune (err error) =
      pure (if is_not_found error.kind then fresh [] else err error)

  unfoldable pub fresh_inventory : List Text → Answer RemoteInventorySnapshot
  fresh_inventory prune = do
    answer ← read_metadata env canonical_remote_path
    snapshot_of_metadata prune answer

  unfoldable pub cached_inventory : Answer RemoteInventorySnapshot
  cached_inventory = do
    answer ← ask (about_cached_resources root_id) (λ events. env.cached_resources events root_id)
    pure (elim (or_critical answer) [
      | ok records ↦ ok (record {
        resources = insert_all [] (known_resources canonical_remote_path records);
        from_cache = true;
      })
      | err e ↦ err e
    ])

  -- Whether the cache holds a complete listing that has not expired.
  unfoldable pub use_cache :
      List Text
      → Result (Option RootRemoteInventoryStatus) YandexDiskError
      → Answer RemoteInventorySnapshot
  use_cache prune (err e) = pure (err e)
  use_cache prune (ok none) = fresh_inventory prune
  use_cache prune (ok (some status)) =
      if status.is_complete
      then (do
        now ← ask about_time env.now
        if is_remote_inventory_expired platform.parse_timestamp now status.snapshot_expires_at_utc
            then fresh_inventory prune
            else cached_inventory)
      else fresh_inventory prune

  unfoldable pub remote_inventory : LiveScanPlan → Bool → Answer RemoteInventorySnapshot
  remote_inventory live_plan force_remote_rescan =
      if force_remote_rescan then fresh_inventory (prune_remote_prefixes live_plan) else (do
        answer ←
            ask (about_inventory_status root_id) (λ events. env.inventory_status events root_id)
        use_cache (prune_remote_prefixes live_plan) (or_critical answer))
