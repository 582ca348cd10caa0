-- ===== src/Sync/Engine/DeletionSafety.antt =====
-- What the deletion phase may ask of the remote side.
use mathlib.Core.Path.{subst, sym}
use mathlib.Core.List.{append-nil}
use ya_disk_sync.Base.{
  ℕ, ◌≡◌, refl, ap, ◌∙◌, inl, inr, Bool, false, List, [], ◌∷◌, ◌++◌, In, All, In_of_All,
}
use ya_disk_sync.Base.Result.{Result, ok, err}
use ya_disk_sync.Base.Text.{Text, is_within, Below, contains}
use ya_disk_sync.Core.Config.{SyncRootConfig}
use ya_disk_sync.Disk.{
  ResourceType, file_resource, directory_resource, ResourceMetadata, YandexDiskError,
}
use ya_disk_sync.State.{SyncRunSummary}
use ya_disk_sync.Sync.LivePlan.{LiveScanPlan}
use ya_disk_sync.Sync.Inventory.{Inventory, trimmed_root}
use ya_disk_sync.Sync.Deletes.{
  RemoteDeleteOperation, collect_coalesced_delete_operations, known_of_plan,
}
use ya_disk_sync.Sync.Deletes.Safety.{
  HasParents, collect_coalesced_delete_operations_extra, collect_coalesced_delete_operations_safe,
}
use ya_disk_sync.Sync.Summary.{RootSyncSummary}
use ya_disk_sync.Sync.Engine.World.{
  Event, repository_call, operation_started, cancellation_read, metadata_read, remote_delete,
  remote_create, remote_upload, staging_removed, run_started, lock_requested, question, Environment,
  is_cancelled, delete_permanently,
}
use ya_disk_sync.Sync.Engine.Emits.{
  Emits, emits_rules, Emits-bind, Emits-if, Emits-pure, Emits-is_cancelled,
  Emits-delete_permanently,
}
use ya_disk_sync.Sync.Engine.Roots.{persist_root_progress}
use ya_disk_sync.Sync.Engine.Deletions.{
  finish_succeeded, record_delete_failure, mark_resource_deleted, forget_resource, after_delete,
  delete_remote_path, after_check, delete_one, delete_loop, apply_deletes,
}

-- A deletion on the remote side is one of the given operations'.
abbrev pub Allows : List RemoteDeleteOperation → Event → Type 0
Allows ops (remote_delete path) = (op : RemoteDeleteOperation) × In op ops × (path ≡ op.remote_path)
Allows ops (repository_call c) = Unit
Allows ops (operation_started o) = Unit
Allows ops cancellation_read = Unit
Allows ops (metadata_read path) = Unit
Allows ops (remote_create path) = ⊥
Allows ops (remote_upload f) = ⊥
Allows ops (staging_removed path) = Unit
Allows ops (run_started trigger) = Unit
Allows ops (lock_requested owner) = Unit
Allows ops (question q) = Unit

module _ (env : Environment) (run_id : ℕ) (root : SyncRootConfig) (base_summary : SyncRunSummary)
    (ops : List RemoteDeleteOperation) where
  persist-Allows :
      (s : RootSyncSummary) → Emits (Allows ops) (persist_root_progress env run_id base_summary s)
  unfolding persist_root_progress
  persist-Allows s = search emits_rules

  failure-Allows :
      (id : ℕ) (operation : Text) (d : RemoteDeleteOperation) (e : YandexDiskError)
      (s : RootSyncSummary)
      → Emits (Allows ops) (record_delete_failure env run_id root base_summary id operation d e s)
  unfolding record_delete_failure
  failure-Allows id operation d e s = search (emits_rules, persist-Allows) depth 9

  mark-Allows :
      (d : RemoteDeleteOperation) (t : ResourceType)
      → Emits (Allows ops) (mark_resource_deleted env run_id root base_summary d t)
  unfolding mark_resource_deleted
  mark-Allows d file_resource = search emits_rules
  mark-Allows d directory_resource = search emits_rules

  finish-Allows : (id : ℕ) → Emits (Allows ops) (finish_succeeded env run_id root base_summary id)
  unfolding finish_succeeded
  finish-Allows id = search emits_rules

  forget-Allows :
      (id : ℕ) (d : RemoteDeleteOperation)
      → Emits (Allows ops) (forget_resource env run_id root base_summary id d)
  unfolding forget_resource
  forget-Allows id d = search (emits_rules, mark-Allows, finish-Allows)

  after_delete-Allows :
      (id : ℕ) (d : RemoteDeleteOperation) (s : RootSyncSummary)
      (r : Result (Unit {0}) YandexDiskError)
      → Emits (Allows ops) (after_delete env run_id root base_summary id d s r)
  unfolding after_delete
  after_delete-Allows id d s (ok u) = search (emits_rules, forget-Allows, persist-Allows)
  after_delete-Allows id d s (err e) = search (emits_rules, forget-Allows, failure-Allows)

  delete_remote_path-Allows :
      (id : ℕ) (d : RemoteDeleteOperation) (s : RootSyncSummary)
      → In d ops
      → Emits (Allows ops) (delete_remote_path env run_id root base_summary id d s)
  unfolding delete_remote_path
  delete_remote_path-Allows id d s m =
      Emits-bind (delete_permanently env d.remote_path)
        (after_delete env run_id root base_summary id d s)
        (Emits-delete_permanently env d.remote_path (d, m, refl)) (after_delete-Allows id d s)

  after_check-Allows :
      (id : ℕ) (d : RemoteDeleteOperation) (s : RootSyncSummary)
      (r : Result ResourceMetadata YandexDiskError)
      → In d ops
      → Emits (Allows ops) (after_check env run_id root base_summary id d s r)
  unfolding after_check
  after_check-Allows id d s (ok x) m = delete_remote_path-Allows id d s m
  after_check-Allows id d s (err e) m = search (emits_rules, finish-Allows, failure-Allows)

  delete_one-Allows :
      (cached : Bool) (d : RemoteDeleteOperation) (s : RootSyncSummary)
      → In d ops
      → Emits (Allows ops) (delete_one env run_id root base_summary cached d s)
  unfolding delete_one
  delete_one-Allows cached d s m =
      search (emits_rules, delete_remote_path-Allows, after_check-Allows)

  delete_loop-Allows :
      (cached : Bool) (ds : List RemoteDeleteOperation) (s : RootSyncSummary)
      → ((d : RemoteDeleteOperation) → In d ds → In d ops)
      → Emits (Allows ops) (delete_loop env run_id root base_summary cached ds s)
  unfolding delete_loop
  delete_loop-Allows cached [] s h = search emits_rules
  delete_loop-Allows cached (d ∷ ds) s h =
      Emits-bind (is_cancelled env) _ (Emits-is_cancelled env tt) (λ c.
        Emits-if c _ _ (Emits-pure _) (
          Emits-bind (delete_one env run_id root base_summary cached d s) _
            (delete_one-Allows cached d s (h d (inl refl)))
            (λ o.
              Emits-if o.0 _ _ (Emits-pure _)
                (delete_loop-Allows cached ds o.1 (λ e m. h e (inr m))))))

pub apply_deletes-Allows :
    (env : Environment) (run_id : ℕ) (root : SyncRootConfig) (base_summary : SyncRunSummary)
    (live_plan : LiveScanPlan) (inventory : Inventory) (cached : Bool) (summary : RootSyncSummary)
    → Emits
        (Allows (
          collect_coalesced_delete_operations root.id summary.canonical_remote_path live_plan
            inventory))
        (apply_deletes env run_id root base_summary live_plan inventory cached summary)
unfolding apply_deletes
apply_deletes-Allows env run_id root base_summary live_plan inventory cached summary =
    let ops =
      collect_coalesced_delete_operations root.id summary.canonical_remote_path live_plan
        inventory in
    delete_loop-Allows env run_id root base_summary ops cached ops summary (λ d i. i)

-- A path that the deletion phase asks the remote side to delete is that of a planned deletion.
planned :
    (env : Environment) (run_id : ℕ) (root : SyncRootConfig) (base_summary : SyncRunSummary)
    (live_plan : LiveScanPlan) (inventory : Inventory) (cached : Bool) (summary : RootSyncSummary)
    (path : Text)
    → In
        (remote_delete path)
        (apply_deletes env run_id root base_summary live_plan inventory cached summary []).1
    → Allows
        (collect_coalesced_delete_operations root.id summary.canonical_remote_path live_plan
          inventory)
        (remote_delete path)
planned env run_id root base_summary live_plan inventory cached summary path m =
    let ops =
      collect_coalesced_delete_operations root.id summary.canonical_remote_path live_plan
        inventory in
    let (new, e, h) =
      (apply_deletes-Allows env run_id root base_summary live_plan inventory cached summary).at
        [] in
    In_of_All (Allows ops) (new ++ []) (remote_delete path)
      (subst (All (Allows ops)) (sym (append-nil new)) h)
      (subst (λ (z : List Event). In (remote_delete path) z) e m)

-- Whatever the database, the remote side and the cancellation do, every path that the deletion
-- phase asks the remote side to delete lies strictly below the managed root and is no live path.
pub apply_deletes_safe :
    (env : Environment) (run_id : ℕ) (root : SyncRootConfig) (base_summary : SyncRunSummary)
    (live_plan : LiveScanPlan) (inventory : Inventory) (cached : Bool) (summary : RootSyncSummary)
    (path : Text)
    → In
        (remote_delete path)
        (apply_deletes env run_id root base_summary live_plan inventory cached summary []).1
    → Below path (trimmed_root summary.canonical_remote_path)
      × (contains (known_of_plan summary.canonical_remote_path live_plan) path ≡ false)
apply_deletes_safe env run_id root base_summary live_plan inventory cached summary path m =
    let (op, i, same) =
      planned env run_id root base_summary live_plan inventory cached summary path m in
    let (below, unknown) =
      collect_coalesced_delete_operations_extra root.id summary.canonical_remote_path live_plan
        inventory op i in
    (
      subst (λ (z : Text). Below z (trimmed_root summary.canonical_remote_path)) (sym same) below,
      ap (contains (known_of_plan summary.canonical_remote_path live_plan)) same ∙ unknown,
    )

-- If every live path has its parents among the live ones, then, whatever the database, the remote
-- side and the cancellation do, no live path lies at or below a path that the deletion phase asks
-- the remote side to delete.
pub apply_deletes_keeps_live :
    (env : Environment) (run_id : ℕ) (root : SyncRootConfig) (base_summary : SyncRunSummary)
    (live_plan : LiveScanPlan) (inventory : Inventory) (cached : Bool) (summary : RootSyncSummary)
    (path live : Text)
    → HasParents summary.canonical_remote_path
        (known_of_plan summary.canonical_remote_path live_plan)
    → In
        (remote_delete path)
        (apply_deletes env run_id root base_summary live_plan inventory cached summary []).1
    → In live (known_of_plan summary.canonical_remote_path live_plan)
    → is_within live path ≡ false
apply_deletes_keeps_live env run_id root base_summary live_plan inventory cached summary path live
      parents m l =
    let (op, i, same) =
      planned env run_id root base_summary live_plan inventory cached summary path m in
    ap (is_within live) same
    ∙ collect_coalesced_delete_operations_safe root.id summary.canonical_remote_path live_plan
        inventory op live parents i l
