-- ===== src/Sync/Plan.antt =====
-- crates/yds-sync/src/lib.rs, `build_root_plan`: the operations that bring the remote side of one
-- root in line with the live scan.
pub mod Uploads
pub mod Noop
pub mod Collision
use ya_disk_sync.Base.{
  ℕ, ◌+◌, ◌%◌, ◌^◌, Bool, true, false, ◌||◌, not, Option, none, some, List, [], ◌∷◌, ◌++◌, map,
  if◌then◌else◌, filter, sort_by, length,
}
use ya_disk_sync.Base.Text.{Text, text, ◌==◌}
use ya_disk_sync.Disk.{ResourceType}
use ya_disk_sync.Scanner.{LocalPath, LocalFileEntry, LocalDirectoryEntry}
use ya_disk_sync.Core.Config.{SyncRootConfig}
use ya_disk_sync.Sync.LivePlan.{LiveScanPlan}
use ya_disk_sync.Sync.Inventory.{Inventory, is_remote_directory, is_remote_file}
use ya_disk_sync.Sync.Deletes.{
  RemoteDeleteOperation, le_delete, collect_coalesced_delete_operations,
}

pub data SyncPlanOperation : Type 0 where
  create_directory : LocalDirectoryEntry → SyncPlanOperation
  upload_file : LocalFileEntry → Bool → SyncPlanOperation
  delete_remote : RemoteDeleteOperation → SyncPlanOperation

abbrev is_create : SyncPlanOperation → Bool
is_create (create_directory _) = true
is_create _ = false

abbrev is_upload : SyncPlanOperation → Bool
is_upload (upload_file _ _) = true
is_upload _ = false

abbrev is_delete : SyncPlanOperation → Bool
is_delete (delete_remote _) = true
is_delete _ = false

unfoldable pub create_directory_count : List SyncPlanOperation → ℕ
unfolding filter
create_directory_count operations = length (filter (λ o. is_create o) operations)

unfoldable pub upload_count : List SyncPlanOperation → ℕ
unfolding filter
upload_count operations = length (filter (λ o. is_upload o) operations)

unfoldable pub delete_count : List SyncPlanOperation → ℕ
unfolding filter
delete_count operations = length (filter (λ o. is_delete o) operations)

-- `RootPlan::create_directories`, `uploads` and `upload_bytes`
unfoldable pub create_directories : List SyncPlanOperation → List LocalDirectoryEntry
create_directories [] = []
create_directories (create_directory d ∷ os) = d ∷ create_directories os
create_directories (_ ∷ os) = create_directories os

unfoldable pub uploads : List SyncPlanOperation → List (LocalFileEntry × Bool)
uploads [] = []
uploads (upload_file f u ∷ os) = (f, u) ∷ uploads os
uploads (_ ∷ os) = uploads os

-- The sum of a `u64` wraps round in a release build.
unfoldable pub upload_bytes : List SyncPlanOperation → ℕ
upload_bytes [] = 0
upload_bytes (upload_file f u ∷ os) = (f.size_bytes + upload_bytes os) % 2 ^ 64
upload_bytes (_ ∷ os) = upload_bytes os

-- What the engine needs of the platform: paths from and to texts, lower case over Unicode, decimal
-- numbers, and points in time, in seconds, as texts.
pub record Platform : Type 0 where
  pub path_from : Text → LocalPath
  pub stable_string : LocalPath → Text
  pub to_lowercase : Text → Text
  pub to_string : ℕ → Text
  pub format_timestamp : ℕ → Text
  pub parse_timestamp : Text → Option ℕ

unfoldable pub root_directory : Platform → SyncRootConfig → Text → LocalDirectoryEntry
root_directory platform root canonical_remote_path = record {
  root_id = root.id;
  local_path = platform.path_from root.local_path;
  relative_path = [];
  remote_path = canonical_remote_path;
  normalized_remote_path = platform.to_lowercase canonical_remote_path;
}

-- The loop over the directories; the root is its first one.
unfoldable pub plan_directories : Inventory → List LocalDirectoryEntry → List SyncPlanOperation
plan_directories inventory [] = []
plan_directories inventory (d ∷ ds) =
    let rest = plan_directories inventory ds in
    if is_remote_directory inventory d.remote_path then rest else create_directory d ∷ rest

unfoldable pub should_upload : Inventory → LocalFileEntry → Bool
should_upload inventory f =
    not f.fingerprint.reused_from_state || not (is_remote_file inventory f.remote_path)

unfoldable pub plan_files : Inventory → List LocalFileEntry → List SyncPlanOperation
unfolding should_upload
plan_files inventory [] = []
plan_files inventory (f ∷ fs) =
    let rest = plan_files inventory fs in
    if should_upload inventory f
    then upload_file f (is_remote_file inventory f.remote_path) ∷ rest
    else rest

-- `delete_order`, which only ever compares deletions.
unfoldable pub le_delete_order : SyncPlanOperation → SyncPlanOperation → Bool
unfolding le_delete
le_delete_order (delete_remote a) (delete_remote b) = le_delete a b
le_delete_order _ _ = true

unfoldable pub plan_deletes : Text → Text → LiveScanPlan → Inventory → List SyncPlanOperation
plan_deletes root_id canonical_remote_path live_plan inventory = sort_by le_delete_order (
    map (λ d. delete_remote d)
      (collect_coalesced_delete_operations root_id canonical_remote_path live_plan inventory))

unfoldable pub build_root_plan :
    Platform → SyncRootConfig → Text → LiveScanPlan → Inventory → List SyncPlanOperation
build_root_plan platform root canonical_remote_path live_plan inventory =
    plan_directories inventory
      (root_directory platform root canonical_remote_path ∷ live_plan.directories)
    ++ (plan_files inventory live_plan.files
        ++ plan_deletes root.id canonical_remote_path live_plan inventory)

-- `local_remote_collision`: the map `seen` from normalized remote paths to relative paths.
seen_before : Text → List (Text × Text) → Option Text
unfolding ◌==◌
seen_before k [] = none
seen_before k ((j, v) ∷ seen) = if j == k then some v else seen_before k seen

unfoldable pub collision_message : Text → Text → Text
unfolding text
collision_message previous relative_path =
    text "canonical remote path collision between " ++ (previous ++ (text " and " ++ relative_path))

-- An entry's normalized remote path and its relative path.
collision_loop : List (Text × Text) → List (Text × Text) → Option Text
unfolding seen_before collision_message
collision_loop seen [] = none
collision_loop seen ((normalized, relative_path) ∷ entries) =
    let next = collision_loop ((normalized, relative_path) ∷ seen) entries in
    elim (seen_before normalized seen) [
      | some previous ↦ some (collision_message previous relative_path)
      | none ↦ next
    ]

abbrev pub collision_entries : List LocalDirectoryEntry → List LocalFileEntry → List (Text × Text)
collision_entries ds fs =
    map (λ (d : LocalDirectoryEntry). (d.normalized_remote_path, d.relative_path)) ds
    ++ map (λ (f : LocalFileEntry). (f.normalized_remote_path, f.relative_path)) fs

unfoldable pub local_remote_collision : List LocalDirectoryEntry → List LocalFileEntry → Option Text
unfolding collision_loop
local_remote_collision directories files = collision_loop [] (collision_entries directories files)
