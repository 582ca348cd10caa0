-- ===== src/Sync/LivePlan.antt =====
-- crates/yds-sync/src/lib.rs, `LiveScanPlan`: the scan as it stands while a run goes on, with the
-- local subtrees that were found missing.
pub mod Subtrees
pub mod Missing
use mathlib.Core.Option
use mathlib.Core.List.{reverse}
use ya_disk_sync.Base.{
  ℕ, Bool, true, false, ◌&&◌, ◌||◌, not, Option, none, some, List, [], ◌∷◌, ◌++◌, map, nat_eq, ltb,
  if◌then◌else◌, any, filter, sort_by, unwrap_or,
}
use ya_disk_sync.Base.Text.{
  Text, ◌==◌, is_within, is_slash, strip_suffix, trim_matches, trim_end_matches, is_empty,
  replace_backslash, count_slashes, slash,
}
use ya_disk_sync.Base.Text.Order.{le_text}
use ya_disk_sync.Base.Text.Split.{join}
use ya_disk_sync.Scanner.{LocalPath, LocalFileEntry, LocalDirectoryEntry, ScanReport}

pub record DeletedLocalSubtree : Type 0 where
  pub root_id : Text
  pub relative_prefix : Text
  pub remote_prefix : Text

pub record LiveScanPlan : Type 0 where
  pub root_id : Text
  pub root_local_path : LocalPath
  pub files : List LocalFileEntry
  pub directories : List LocalDirectoryEntry
  pub deleted_subtrees : List DeletedLocalSubtree

-- The two questions that are put to the file system.
pub record FileSystem : Type 0 where
  pub is_dir : LocalPath → Bool
  pub path_exists : LocalPath → Bool

unfoldable pub prune_remote_prefixes : LiveScanPlan → List Text
prune_remote_prefixes plan =
    map (λ (s : DeletedLocalSubtree). s.remote_prefix) plan.deleted_subtrees

unfoldable pub is_relative_path_deleted : Text → List DeletedLocalSubtree → Bool
unfolding any is_within
is_relative_path_deleted relative_path subtrees =
    any (λ s. is_within relative_path s.relative_prefix) subtrees

unfoldable pub is_deleted_relative_path : LiveScanPlan → Text → Bool
unfolding is_relative_path_deleted
is_deleted_relative_path plan relative_path =
    is_relative_path_deleted relative_path plan.deleted_subtrees

abbrev le_prefix : DeletedLocalSubtree → DeletedLocalSubtree → Bool
le_prefix left right = le_text left.relative_prefix right.relative_prefix

-- The new list, or none where the subtree is covered already.
unfoldable pub add_subtree :
    List DeletedLocalSubtree → DeletedLocalSubtree → Option (List DeletedLocalSubtree)
unfolding is_relative_path_deleted filter sort_by le_text
add_subtree subtrees s =
    if is_relative_path_deleted s.relative_prefix subtrees
    then none
    else some (
        sort_by le_prefix (
          filter (λ old. not (is_within old.relative_prefix s.relative_prefix)) subtrees ++ s ∷ []))

-- `add_deleted_subtree` on the list; what it returns is whether the subtree was added.
unfoldable pub with_subtree :
    List DeletedLocalSubtree → DeletedLocalSubtree → List DeletedLocalSubtree
with_subtree subtrees s = unwrap_or (add_subtree subtrees s) subtrees

abbrev le_depth : LocalDirectoryEntry → LocalDirectoryEntry → Bool
le_depth left right =
    let a = count_slashes left.relative_path in
    let b = count_slashes right.relative_path in
    ltb a b || (nat_eq a b && le_text left.relative_path right.relative_path)

-- The loop over the sorted directories: those that are kept, in reverse, and the subtrees.
unfoldable pub scan_directories :
    FileSystem
    → List LocalDirectoryEntry
    → List LocalDirectoryEntry
    → List DeletedLocalSubtree
    → List LocalDirectoryEntry × List DeletedLocalSubtree
scan_directories fs [] kept subtrees = (kept, subtrees)
scan_directories fs (d ∷ rest) kept subtrees =
    let deleted = is_relative_path_deleted d.relative_path subtrees in
    let missing = not (fs.is_dir d.local_path) in
    scan_directories fs rest (if deleted || missing then kept else kept ++ d ∷ []) (
      if deleted
      then subtrees
      else if missing
      then with_subtree subtrees (record {
        root_id = d.root_id;
        relative_prefix = d.relative_path;
        remote_prefix = d.remote_path;
      })
      else subtrees)

unfoldable pub from_scan_report : FileSystem → LocalPath → ScanReport → LiveScanPlan
from_scan_report fs root_local_path report =
    let (kept, subtrees) = scan_directories fs (sort_by le_depth report.directories) [] [] in
    record {
      root_id = report.root_id;
      root_local_path = root_local_path;
      files =
          filter (λ (f : LocalFileEntry). not (is_relative_path_deleted f.relative_path subtrees))
            report.files;
      directories = kept;
      deleted_subtrees = subtrees;
    }

-- Equality of paths, by components.
unfoldable pub same_path : LocalPath → LocalPath → Bool
unfolding ◌==◌
same_path [] [] = true
same_path (a ∷ p) (b ∷ q) = a == b && same_path p q
same_path _ _ = false

-- The `while` loop; the third argument is `nearest`. A candidate without a parent, when it is
-- missing, ends the whole function with none.
unfoldable pub missing_loop :
    FileSystem → LocalPath → Option LocalPath → LocalPath → Option LocalPath
unfolding same_path
missing_loop fs root nearest [] = if same_path [] root || fs.path_exists [] then nearest else none
missing_loop fs root nearest (c ∷ []) =
    if same_path (c ∷ []) root || fs.path_exists (c ∷ []) then nearest else none
missing_loop fs root nearest (c ∷ d ∷ up) =
    let next = missing_loop fs root (some (c ∷ d ∷ up)) (d ∷ up) in
    if same_path (c ∷ d ∷ up) root || fs.path_exists (c ∷ d ∷ up)
    then nearest
    else if same_path (d ∷ up) root || fs.path_exists (d ∷ up)
    then some (c ∷ d ∷ up)
    else next

unfoldable pub nearest_missing_directory : FileSystem → LocalPath → LocalPath → Option LocalPath
unfolding missing_loop
nearest_missing_directory fs root [] = if fs.is_dir [] then missing_loop fs root none [] else none
nearest_missing_directory fs root (c ∷ []) =
    if fs.is_dir (c ∷ []) then missing_loop fs root none (c ∷ []) else none
nearest_missing_directory fs root (c ∷ d ∷ up) =
    missing_loop fs root none (if fs.is_dir (c ∷ d ∷ up) then c ∷ d ∷ up else d ∷ up)

-- `path.strip_prefix(root)`: the components below the root, last first.
unfoldable pub strip_root : LocalPath → LocalPath → Option (List Text)
unfolding same_path
strip_root [] root = if same_path [] root then some [] else none
strip_root (c ∷ parent) root =
    if same_path (c ∷ parent) root
    then some []
    else Option.map (λ (p : List Text). c ∷ p) (strip_root parent root)

-- `relative.to_string_lossy().replace('\\', "/").trim_matches('/')`
unfoldable pub relative_text : List Text → Text
unfolding trim_matches replace_backslash join
relative_text components = trim_matches is_slash (replace_backslash (join (reverse components)))

-- The prefix on the remote side: cut off as many components as the missing directory stands above.
unfoldable pub remote_prefix_for : Text → Text → Text → Text
unfolding ◌==◌ strip_suffix trim_end_matches
remote_prefix_for relative_prefix relative_path remote_path =
    if relative_prefix == relative_path
    then remote_path
    else trim_end_matches is_slash (unwrap_or (strip_suffix remote_path relative_path) remote_path)
      ++ (slash ∷ relative_prefix)

subtree_at : Text → Text → Text → Text → Option DeletedLocalSubtree
unfolding remote_prefix_for is_empty
subtree_at root_id relative_prefix relative_path remote_path =
    if is_empty relative_prefix
    then none
    else some (record {
      root_id = root_id;
      relative_prefix = relative_prefix;
      remote_prefix = remote_prefix_for relative_prefix relative_path remote_path;
    })

unfoldable pub detect_deleted_local_subtree :
    FileSystem → Text → LocalPath → LocalPath → Text → Text → Option DeletedLocalSubtree
unfolding nearest_missing_directory strip_root relative_text subtree_at
detect_deleted_local_subtree fs root_id root local_path relative_path remote_path =
    elim (nearest_missing_directory fs root local_path) [
      | none ↦ none
      | some missing ↦ elim (strip_root missing root) [
        | none ↦ none
        | some components ↦ subtree_at root_id (relative_text components) relative_path remote_path
      ]
    ]

registered :
    LiveScanPlan
    → DeletedLocalSubtree
    → Option (List DeletedLocalSubtree)
    → Option DeletedLocalSubtree × LiveScanPlan
registered plan s none = (none, plan)
registered plan s (some subtrees) = (some s, record plan { deleted_subtrees = subtrees })

-- The subtree that was added, if any, and the plan with it.
register : LiveScanPlan → Option DeletedLocalSubtree → Option DeletedLocalSubtree × LiveScanPlan
unfolding registered
register plan none = (none, plan)
register plan (some s) = registered plan s (add_subtree plan.deleted_subtrees s)

unfoldable pub register_missing_local_path :
    FileSystem → LiveScanPlan → LocalPath → Text → Text → Option DeletedLocalSubtree × LiveScanPlan
unfolding register
register_missing_local_path fs plan local_path relative_path remote_path = register plan (
    detect_deleted_local_subtree fs plan.root_id plan.root_local_path local_path relative_path
      remote_path)
