-- ===== src/Sync/Deletes.antt =====
-- crates/yds-sync/src/lib.rs, `collect_coalesced_delete_operations`: which remote resources a run
-- deletes, one operation for a whole subtree where nothing in it is live.
pub mod Safety
pub mod Prefixes
pub mod Coverage
use ya_disk_sync.Base.{
  ℕ, Bool, true, false, ◌&&◌, ◌||◌, not, Option, none, some, List, [], ◌∷◌, ◌++◌, nat_eq, ltb,
  if◌then◌else◌, any, filter, sort_by,
}
use ya_disk_sync.Base.Result.{Result, ok, err, is_ok}
use ya_disk_sync.Base.Text.{
  Text, text, ◌==◌, slash, is_slash, is_empty, is_within, strip_prefix, starts_with,
  trim_end_matches, contains, count_slashes, to_ascii_lowercase,
}
use ya_disk_sync.Base.Text.Order.{le_text}
use ya_disk_sync.Base.Text.Split.{split}
use ya_disk_sync.Disk.{ResourceType, directory_resource, ResourceMetadata, is_directory}
use ya_disk_sync.Scanner.{LocalFileEntry, LocalDirectoryEntry}
use ya_disk_sync.Sync.LivePlan.{DeletedLocalSubtree, LiveScanPlan, is_relative_path_deleted}
use ya_disk_sync.Sync.Inventory.{Inventory, values, trimmed_root, relative_remote_path}
use mathlib.Core.List.{map}

pub record RemoteDeleteOperation : Type 0 where
  pub root_id : Text
  pub remote_path : Text
  pub relative_path : Text
  pub resource_type : ResourceType

-- The set of remote paths that local entries stand for, as a list: only membership is asked.
unfoldable pub live_directories : List DeletedLocalSubtree → List LocalDirectoryEntry → List Text
unfolding is_relative_path_deleted
live_directories subtrees [] = []
live_directories subtrees (d ∷ ds) =
    let rest = live_directories subtrees ds in
    if is_relative_path_deleted d.relative_path subtrees then rest else d.remote_path ∷ rest

unfoldable pub live_files : List DeletedLocalSubtree → List LocalFileEntry → List Text
unfolding is_relative_path_deleted
live_files subtrees [] = []
live_files subtrees (f ∷ fs) =
    let rest = live_files subtrees fs in
    if is_relative_path_deleted f.relative_path subtrees then rest else f.remote_path ∷ rest

unfoldable pub known_live_remote_paths :
    Text → List LocalDirectoryEntry → List LocalFileEntry → List DeletedLocalSubtree → List Text
unfolding live_directories live_files
known_live_remote_paths canonical_remote_path directories files subtrees =
    canonical_remote_path ∷ live_directories subtrees directories ++ live_files subtrees files

-- `segment.eq_ignore_ascii_case("disk:")`
unfoldable pub is_disk_segment : Text → Bool
unfolding ◌==◌ to_ascii_lowercase
is_disk_segment segment = map to_ascii_lowercase segment == (b'd' ∷ b'i' ∷ b's' ∷ b'k' ∷ b':' ∷ [])

candidate_below : Option Text → Result Text Text
candidate_below none = err (text "outside_managed_root")
candidate_below (some relative_path) =
    if is_empty relative_path
    then err (text "empty_relative_path")
    else if any is_disk_segment (split is_slash relative_path)
    then err (text "phantom_disk_segment")
    else ok relative_path

-- The error is the reason that the log names.
unfoldable pub remote_delete_candidate_relative_path : Text → Text → Result Text Text
unfolding candidate_below
remote_delete_candidate_relative_path managed_root remote_path =
    if remote_path == trimmed_root managed_root
    then err (text "empty_relative_path")
    else candidate_below (strip_prefix remote_path (trimmed_root managed_root ++ (slash ∷ [])))

unfoldable pub is_delete_candidate : Text → Text → Bool
is_delete_candidate managed_root remote_path =
    is_ok (remote_delete_candidate_relative_path managed_root remote_path)

-- `known.iter().any(|path| path.starts_with(prefix))`
unfoldable pub has_live_descendants : List Text → Text → Bool
has_live_descendants known child_prefix = any (λ path. starts_with path child_prefix) known

-- `segments.iter().take(segments.len() - 1)`; of fewer than two segments nothing is left, and the
-- loop over nothing returns none as the code does.
unfoldable pub all_but_last : List Text → List Text
all_but_last [] = []
all_but_last (s ∷ []) = []
all_but_last (s ∷ t ∷ rest) = s ∷ all_but_last (t ∷ rest)

unfoldable pub missing_prefix_loop : List Text → Text → List Text → Option Text
missing_prefix_loop known prefix [] = none
missing_prefix_loop known prefix (segment ∷ rest) =
    let next = missing_prefix_loop known (prefix ++ (slash ∷ segment)) rest in
    if contains known (prefix ++ (slash ∷ segment))
    then next
    else if has_live_descendants known ((prefix ++ (slash ∷ segment)) ++ (slash ∷ []))
    then next
    else some (prefix ++ (slash ∷ segment))

unfoldable pub remote_segments : Text → Text → List Text
remote_segments canonical_remote_path remote_path =
    filter (λ segment. not (is_empty segment))
      (split is_slash (relative_remote_path canonical_remote_path remote_path))

unfoldable pub top_missing_remote_directory_prefix : Text → Text → List Text → Option Text
top_missing_remote_directory_prefix canonical_remote_path remote_path known =
    missing_prefix_loop known (trimmed_root canonical_remote_path)
      (all_but_last (remote_segments canonical_remote_path remote_path))

abbrev le_path : Text → Text → Bool
le_path a b =
    ltb (count_slashes a) (count_slashes b)
    || (nat_eq (count_slashes a) (count_slashes b) && le_text a b)

-- The sort key of the resources: directories first, then by depth, then by path.
unfoldable pub le_resource : ResourceMetadata → ResourceMetadata → Bool
unfolding count_slashes le_text
le_resource left right =
    if is_directory left.resource_type
    then (if is_directory right.resource_type then le_path left.path right.path else true)
    else if is_directory right.resource_type
    then false
    else le_path left.path right.path

-- The order of the operations: the deepest first, then by path.
unfoldable pub le_delete : RemoteDeleteOperation → RemoteDeleteOperation → Bool
unfolding count_slashes le_text
le_delete left right =
    let a = count_slashes left.remote_path in
    let b = count_slashes right.remote_path in
    ltb b a || (nat_eq a b && le_text left.remote_path right.remote_path)

unfoldable pub is_suppressed : List Text → Text → Bool
is_suppressed suppressed_prefixes path = any (is_within path) suppressed_prefixes

-- The state of the loop.
pub record Collected : Type 0 where
  pub suppressed_prefixes : List Text
  pub operations : List RemoteDeleteOperation

module _ (root_id canonical_remote_path : Text) (known : List Text) where
  unfoldable pub delete_operation : Text → ResourceType → RemoteDeleteOperation
  delete_operation path resource_type = record {
    root_id = root_id;
    remote_path = path;
    relative_path = relative_remote_path canonical_remote_path path;
    resource_type = resource_type;
  }

  -- One operation for the whole subtree at the path.
  unfoldable pub delete_subtree : Collected → Text → Collected
  delete_subtree s path = record {
    suppressed_prefixes = s.suppressed_prefixes ++ path ∷ [];
    operations = s.operations ++ delete_operation path directory_resource ∷ [];
  }

  -- What follows once no directory above the resource is missing.
  unfoldable pub collect_at : Collected → ResourceMetadata → Collected
  collect_at s r =
      if is_directory r.resource_type
        && not (has_live_descendants known (trim_end_matches is_slash r.path ++ (slash ∷ [])))
      then delete_subtree s r.path
      else record s { operations = s.operations ++ delete_operation r.path r.resource_type ∷ [] }

  unfoldable pub collect_unknown : Collected → ResourceMetadata → Option Text → Collected
  collect_unknown s r none = collect_at s r
  collect_unknown s r (some directory_path) =
      if is_suppressed s.suppressed_prefixes directory_path
      then s
      else delete_subtree s directory_path

  -- The body of the loop.
  unfoldable pub collect_step : Collected → ResourceMetadata → Collected
  collect_step s r =
      if not (is_delete_candidate canonical_remote_path r.path)
      then s
      else if is_suppressed s.suppressed_prefixes r.path
      then s
      else if contains known r.path
      then s
      else collect_unknown s r
          (top_missing_remote_directory_prefix canonical_remote_path r.path known)

  unfoldable pub collect_loop : Collected → List ResourceMetadata → Collected
  collect_loop s [] = s
  collect_loop s (r ∷ rs) = collect_loop (collect_step s r) rs

-- The resources that the loop walks, in its order.
unfoldable pub sorted_resources : Text → Inventory → List ResourceMetadata
sorted_resources canonical_remote_path inventory =
    sort_by le_resource
      (filter (λ (r : ResourceMetadata). not (r.path == canonical_remote_path)) (values inventory))

unfoldable pub known_of_plan : Text → LiveScanPlan → List Text
known_of_plan canonical_remote_path live_plan =
    known_live_remote_paths canonical_remote_path live_plan.directories live_plan.files
      live_plan.deleted_subtrees

unfoldable pub collect_coalesced_delete_operations :
    Text → Text → LiveScanPlan → Inventory → List RemoteDeleteOperation
collect_coalesced_delete_operations root_id canonical_remote_path live_plan inventory =
    sort_by le_delete
      (collect_loop root_id canonical_remote_path (known_of_plan canonical_remote_path live_plan)
        (record { suppressed_prefixes = []; operations = [] })
        (sorted_resources canonical_remote_path inventory)).operations
