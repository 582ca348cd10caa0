-- ===== src/Examples/Plan.antt =====
-- Plans, deletions and batches at concrete inputs.
use ya_disk_sync.Base.{
  ℕ, ◌≡◌, refl, inl, inr, true, false, none, List, [], ◌∷◌, In, ◌<◌, ◌≤◌, ◌↔◌, length, Pairwise,
  any,
}
use ya_disk_sync.Base.Text.{
  is_within, Below, contains, ◌==◌, strip_prefix, trim_end_matches, trim_start_matches, is_empty,
  to_ascii_lowercase,
}
use ya_disk_sync.Base.Text.Split.{split}
use ya_disk_sync.Disk.{file_resource, ResourceMetadata}
use ya_disk_sync.Sync.Inventory.{
  values, trimmed_root, get_resource, is_remote_directory, is_remote_file,
}
use ya_disk_sync.Sync.LivePlan.{is_relative_path_deleted}
use ya_disk_sync.Sync.Deletes.{
  RemoteDeleteOperation, collect_coalesced_delete_operations, known_of_plan,
  known_live_remote_paths, live_directories, live_files, is_delete_candidate,
  remote_delete_candidate_relative_path, is_disk_segment,
}
use ya_disk_sync.Sync.Deletes.Safety.{
  collect_coalesced_delete_operations_extra, collect_coalesced_delete_operations_safe,
}
use ya_disk_sync.Base.{◌⊎◌}
use ya_disk_sync.Disk.{is_not_found, is_retryable, tells_quota, classify_http_status}
use ya_disk_sync.Disk.Classify.{classify_http_status_kinds}
use ya_disk_sync.Sync.Deletes.Coverage.{collect_coalesced_delete_operations_complete}
use ya_disk_sync.Sync.Plan.{
  delete_remote, build_root_plan, root_directory, local_remote_collision, collision_entries,
}
use ya_disk_sync.Sync.Plan.Uploads.{build_root_plan_iff, IsWanted}
use ya_disk_sync.Sync.Plan.Noop.{IsLive, build_root_plan_noop}
use ya_disk_sync.Sync.Plan.Collision.{Distinct, local_remote_collision_iff}
use ya_disk_sync.Sync.Batch.{
  Upload, Interleaved, count_large, take_upload_batch_bounds, take_upload_batch,
}
use ya_disk_sync.Examples.Data.{
  remote_root, under_root, f_name, x_name, live_plan, inventory_with_extra, inventory_in_sync,
  resource, root_config, platform, live_plan-HasParents, f_file, a_directory, x_deletion,
  x_is_deleted,
}

all-IsLive :
    (r : ResourceMetadata)
    → In r (values inventory_in_sync)
    → IsLive remote_root (known_of_plan remote_root (live_plan true)) r
unfolding values is_delete_candidate remote_delete_candidate_relative_path ◌==◌ strip_prefix
    trim_end_matches trim_start_matches is_empty known_of_plan known_live_remote_paths
    live_directories live_files is_relative_path_deleted any contains split is_disk_segment
    to_ascii_lowercase
all-IsLive r (inl e) = rw e refl
all-IsLive r (inr (inl e)) = rw e refl
all-IsLive r (inr (inr (inl e))) = rw e refl
all-IsLive r (inr (inr (inr m))) = absurd m

collect_coalesced_delete_operations_extra_example :
    Below (under_root x_name) (trimmed_root remote_root)
    × (contains (known_of_plan remote_root (live_plan true)) (under_root x_name) ≡ false)
collect_coalesced_delete_operations_extra_example =
    collect_coalesced_delete_operations_extra [] remote_root (live_plan true) inventory_with_extra
      x_deletion x_is_deleted

collect_coalesced_delete_operations_safe_example :
    is_within (under_root f_name) (under_root x_name) ≡ false
unfolding known_of_plan known_live_remote_paths live_directories live_files is_relative_path_deleted
    any
collect_coalesced_delete_operations_safe_example =
    collect_coalesced_delete_operations_safe [] remote_root (live_plan true) inventory_with_extra
      x_deletion (under_root f_name) (live_plan-HasParents true) x_is_deleted (inr (inr (inl refl)))

collect_coalesced_delete_operations_complete_example :
    (op : RemoteDeleteOperation) × In op
      (collect_coalesced_delete_operations [] remote_root (live_plan true) inventory_with_extra)
    × (is_within (under_root x_name) op.remote_path ≡ true)
unfolding values ◌==◌ remote_delete_candidate_relative_path strip_prefix trim_end_matches
    trim_start_matches is_empty any is_disk_segment split known_of_plan known_live_remote_paths
    live_directories live_files is_relative_path_deleted contains to_ascii_lowercase
collect_coalesced_delete_operations_complete_example =
    collect_coalesced_delete_operations_complete [] remote_root (live_plan true)
      inventory_with_extra (resource (under_root x_name) file_resource) x_name
      (inr (inr (inr (inl refl)))) refl refl (refl, tt) refl

build_root_plan_iff_example :
    In
      (delete_remote x_deletion)
      (build_root_plan platform root_config remote_root (live_plan true) inventory_with_extra)
    ↔ IsWanted platform root_config remote_root
        (live_plan true)
        inventory_with_extra
        (delete_remote x_deletion)
build_root_plan_iff_example =
    build_root_plan_iff platform root_config remote_root (live_plan true) inventory_with_extra
      (delete_remote x_deletion)

build_root_plan_noop_example :
    build_root_plan platform root_config remote_root (live_plan true) inventory_in_sync ≡ []
unfolding is_remote_directory is_remote_file get_resource ◌==◌ root_directory
build_root_plan_noop_example =
    build_root_plan_noop platform root_config remote_root (live_plan true) inventory_in_sync
      (refl, (refl, tt)) ((refl, refl), tt) all-IsLive

local_remote_collision_iff_example :
    (local_remote_collision (a_directory ∷ []) (f_file true ∷ []) ≡ none)
    ↔ Pairwise Distinct (collision_entries (a_directory ∷ []) (f_file true ∷ []))
local_remote_collision_iff_example =
    local_remote_collision_iff (a_directory ∷ []) (f_file true ∷ [])

abbrev queue : List Upload
queue = (f_file true, false) ∷ (f_file false, true) ∷ []

take_upload_batch_bounds_example :
    Interleaved (take_upload_batch queue 2 5).0 (take_upload_batch queue 2 5).1 queue
    × (length (take_upload_batch queue 2 5).0 ≤ 2)
    × (count_large 5 (take_upload_batch queue 2 5).0 ≤ 1)
take_upload_batch_bounds_example = take_upload_batch_bounds queue 2 5

abbrev missing_status : ℕ
missing_status = 404

classify_http_status_kinds_example :
    ((is_not_found (classify_http_status missing_status none []) ≡ true) ↔ (missing_status ≡ 404))
    × ((is_retryable (classify_http_status missing_status none []) ≡ true) ↔ (
        (tells_quota missing_status none [] ≡ false)
        × ((missing_status ≡ 429) ⊎ ((500 ≤ missing_status) × (missing_status < 600)))))
classify_http_status_kinds_example = classify_http_status_kinds missing_status none []
