-- ===== src/Sync/Plan/Noop.antt =====
-- `build_root_plan` on a root that is in sync.
use ya_disk_sync.Base.{
  ◌≡◌, refl, ap, ◌∙◌, inl, inr, true, ◌||◌, not, List, [], ◌∷◌, arith, Bool-cases, In, All, any,
  sort_by, In-sort_by, In-filter, All-of_In,
}
use ya_disk_sync.Base.Text.{Text, ◌==◌, contains}
use ya_disk_sync.Disk.{ResourceMetadata}
use ya_disk_sync.Scanner.{LocalFileEntry, LocalDirectoryEntry}
use ya_disk_sync.Core.Config.{SyncRootConfig}
use ya_disk_sync.Sync.LivePlan.{LiveScanPlan}
use ya_disk_sync.Sync.Inventory.{Inventory, values, is_remote_directory, is_remote_file}
use ya_disk_sync.Sync.Deletes.{
  is_delete_candidate, is_suppressed, Collected, collect_step, collect_loop, sorted_resources,
  le_resource, known_of_plan, collect_coalesced_delete_operations,
}
use ya_disk_sync.Sync.Plan.{
  Platform, root_directory, plan_directories, should_upload, plan_files, plan_deletes,
  build_root_plan,
}

-- Every resource but the root is live, or no valid candidate for a deletion.
abbrev pub IsLive : Text → List Text → ResourceMetadata → Type 0
IsLive root known r = (not (is_delete_candidate root r.path) || contains known r.path) ≡ true

plan_directories-nil :
    (inventory : Inventory) (ds : List LocalDirectoryEntry)
    → All (λ (d : LocalDirectoryEntry). is_remote_directory inventory d.remote_path ≡ true) ds
    → plan_directories inventory ds ≡ []
unfolding plan_directories
plan_directories-nil inventory [] h = refl
plan_directories-nil inventory (d ∷ ds) h = rw h.0 (plan_directories-nil inventory ds h.1)

plan_files-nil :
    (inventory : Inventory) (fs : List LocalFileEntry)
    → All
        (λ (f : LocalFileEntry).
          (f.fingerprint.reused_from_state ≡ true)
          × (is_remote_file inventory f.remote_path ≡ true))
        fs
    → plan_files inventory fs ≡ []
unfolding plan_files should_upload
plan_files-nil inventory [] h = refl
plan_files-nil inventory (f ∷ fs) h = rw (h.0.0, h.0.1) (plan_files-nil inventory fs h.1)

module _ (root_id root : Text) (known : List Text) where
  abbrev start : Collected
  start = record { suppressed_prefixes = []; operations = [] }

  collect_step-live :
      (r : ResourceMetadata) → IsLive root known r → collect_step root_id root known start r ≡ start
  unfolding collect_step is_suppressed any
  collect_step-live r h = elim (Bool-cases (is_delete_candidate root r.path)) [
    | inl candidate ↦ let live : contains known r.path ≡ true = ground arith in rw (candidate, live)
    | inr invalid ↦ rw invalid
  ]

  collect_loop-live :
      (rs : List ResourceMetadata)
      → All (IsLive root known) rs
      → collect_loop root_id root known start rs ≡ start
  unfolding collect_loop
  collect_loop-live [] h = refl
  collect_loop-live (r ∷ rs) h =
      ap (λ s. collect_loop root_id root known s rs) (collect_step-live r h.0)
      ∙ collect_loop-live rs h.1

unsorted :
    (path : Text) (inventory : Inventory) (r : ResourceMetadata)
    → In r (sorted_resources path inventory)
    → In r (values inventory)
unfolding sorted_resources
unsorted path inventory r m =
    (In-filter (λ (q : ResourceMetadata). not (q.path == path)) (values inventory) r
      (In-sort_by le_resource r _ m)).0

-- If the root and the live directories are remote directories, every live file is unchanged since
-- the last run and has a remote file, and every remote resource is live (or no valid candidate for
-- a deletion), then the plan is empty.
pub build_root_plan_noop :
    (platform : Platform) (root : SyncRootConfig) (path : Text) (live_plan : LiveScanPlan)
    (inventory : Inventory)
    → All
        (λ (d : LocalDirectoryEntry). is_remote_directory inventory d.remote_path ≡ true)
        (root_directory platform root path ∷ live_plan.directories)
    → All
        (λ (f : LocalFileEntry).
          (f.fingerprint.reused_from_state ≡ true)
          × (is_remote_file inventory f.remote_path ≡ true))
        live_plan.files
    → ((r : ResourceMetadata)
        → In r (values inventory)
        → IsLive path (known_of_plan path live_plan) r)
    → build_root_plan platform root path live_plan inventory ≡ []
unfolding build_root_plan plan_deletes collect_coalesced_delete_operations sort_by
build_root_plan_noop platform root path live_plan inventory hd hf hr = rw (
  plan_directories-nil inventory _ hd,
  plan_files-nil inventory live_plan.files hf,
  collect_loop-live root.id path (known_of_plan path live_plan) (sorted_resources path inventory)
      live,
)
  where
    live : All (IsLive path (known_of_plan path live_plan)) (sorted_resources path inventory)
    live = All-of_In (sorted_resources path inventory) (λ r m. hr r (unsorted path inventory r m))
