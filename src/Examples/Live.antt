-- ===== src/Examples/Live.antt =====
-- The live plan and the summary of a run at concrete inputs.
use ya_disk_sync.Base.{◌≡◌, refl, true, ◌||◌, [], ◌∷◌}
use ya_disk_sync.Base.Text.{Text, is_within, ◌==◌}
use ya_disk_sync.Scanner.{LocalPath, ScanReport}
use ya_disk_sync.Sync.LivePlan.{
  DeletedLocalSubtree, FileSystem, from_scan_report, register_missing_local_path, with_subtree,
  is_relative_path_deleted, nearest_missing_directory, missing_loop, same_path,
}
use ya_disk_sync.Sync.LivePlan.Subtrees.{
  IsNestedFree, from_scan_report-IsNestedFree, register_missing_local_path-IsNestedFree,
  deleted-with_subtree,
}
use ya_disk_sync.Sync.LivePlan.Missing.{TopsMissing, Above, nearest_missing_directory-TopsMissing}
use ya_disk_sync.Examples.Data.{
  under_root, a_name, f_name, local_root, a_directory, f_file, live_plan,
}

-- Only the root exists.
abbrev file_system : FileSystem
file_system = record {
  is_dir = λ p. same_path p local_root;
  path_exists = λ p. same_path p local_root;
}

abbrev report : ScanReport
report = record {
  root_id = [];
  files = f_file true ∷ [];
  directories = a_directory ∷ [];
  skipped = [];
  failed = [];
}

from_scan_report-IsNestedFree_example :
    IsNestedFree (from_scan_report file_system local_root report)
from_scan_report-IsNestedFree_example = from_scan_report-IsNestedFree file_system local_root report

abbrev f_path : LocalPath
f_path = (b'f' ∷ []) ∷ a_name ∷ local_root

register_missing_local_path-IsNestedFree_example :
    IsNestedFree
      (register_missing_local_path file_system (live_plan true) f_path f_name (under_root f_name)).1
register_missing_local_path-IsNestedFree_example =
    register_missing_local_path-IsNestedFree file_system (live_plan true) f_path f_name
      (under_root f_name) tt

abbrev subtree : Text → DeletedLocalSubtree
subtree prefix = record {
  root_id = [];
  relative_prefix = prefix;
  remote_prefix = under_root prefix;
}

deleted-with_subtree_example :
    is_relative_path_deleted f_name (with_subtree (subtree f_name ∷ []) (subtree a_name))
    ≡ (is_relative_path_deleted f_name (subtree f_name ∷ []) || is_within f_name a_name)
deleted-with_subtree_example = deleted-with_subtree (subtree f_name ∷ []) (subtree a_name) f_name

-- The file `a/f` is gone with its directory: the directory is what is missing.
nearest_missing_directory-TopsMissing_example :
    TopsMissing file_system local_root (a_name ∷ local_root) × Above (a_name ∷ local_root) f_path
unfolding nearest_missing_directory missing_loop same_path ◌==◌
nearest_missing_directory-TopsMissing_example =
    nearest_missing_directory-TopsMissing file_system local_root f_path (a_name ∷ local_root) refl
