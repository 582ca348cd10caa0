-- ===== src/Examples/Data.antt =====
-- The data that the tests share: a root `disk:/b` with the directory `a` and the file `a/f`.
use mathlib.Core.Path.{subst}
use ya_disk_sync.Base.{
  ℕ, ◌≡◌, refl, sym, ap, inl, inr, Bool, true, ◌||◌, not, none, List, [], ◌∷◌, ◌++◌, map, arith,
  if◌then◌else◌, Bool-cases, In, In_of_All, All,
}
use ya_disk_sync.Base.Text.{
  Text, slash, is_slash, is_within, Below, contains, contains_sound, strip_prefix,
  starts_with_slash, ◌==◌, trim_end_matches, trim_start_matches, is_within_complete,
}
use ya_disk_sync.Core.Config.{SyncRootConfig}
use ya_disk_sync.Scanner.{LocalPath, sha256, Fingerprint, LocalFileEntry, LocalDirectoryEntry}
use ya_disk_sync.Disk.{ResourceMetadata, ResourceType, file_resource, directory_resource}
use ya_disk_sync.Sync.LivePlan.{LiveScanPlan}
use ya_disk_sync.Sync.Inventory.{Inventory}
use ya_disk_sync.Sync.Deletes.Safety.{HasParents}
use ya_disk_sync.Sync.Plan.{Platform}
use ya_disk_sync.State.{SyncRunSummary}
use ya_disk_sync.Sync.Summary.{RootSyncSummary, root_succeeded}
use ya_disk_sync.Base.{any, filter, sort_by, insert_by}
use ya_disk_sync.Base.Text.{is_empty, starts_with, count_slashes, to_ascii_lowercase}
use ya_disk_sync.Base.Text.Split.{split}
use ya_disk_sync.Base.Text.Order.{le_text}
use ya_disk_sync.Sync.Inventory.{values, relative_remote_path}
use ya_disk_sync.Sync.Deletes.{
  RemoteDeleteOperation, collect_coalesced_delete_operations, sorted_resources, collect_loop,
  collect_step, collect_unknown, collect_at, delete_subtree, delete_operation, is_suppressed,
  is_delete_candidate, remote_delete_candidate_relative_path, is_disk_segment, has_live_descendants,
  all_but_last, missing_prefix_loop, remote_segments, top_missing_remote_directory_prefix,
  le_resource, le_delete,
}
use ya_disk_sync.Sync.LivePlan.{is_relative_path_deleted}
use ya_disk_sync.Sync.Deletes.{known_of_plan, known_live_remote_paths, live_directories, live_files}

-- `disk:/b`
abbrev pub remote_root : Text
remote_root = b'd' ∷ b'i' ∷ b's' ∷ b'k' ∷ b':' ∷ b'/' ∷ b'b' ∷ []

abbrev pub under_root : Text → Text
under_root name = remote_root ++ (slash ∷ name)

abbrev pub a_name : Text
a_name = b'a' ∷ []

abbrev pub f_name : Text
f_name = b'a' ∷ b'/' ∷ b'f' ∷ []

abbrev pub x_name : Text
x_name = b'x' ∷ []

abbrev pub local_root : LocalPath
local_root = (b'b' ∷ []) ∷ [] ∷ []

abbrev pub a_directory : LocalDirectoryEntry
a_directory = record {
  root_id = [];
  local_path = a_name ∷ local_root;
  relative_path = a_name;
  remote_path = under_root a_name;
  normalized_remote_path = under_root a_name;
}

abbrev pub fingerprint : Bool → Fingerprint
fingerprint reused = record {
  kind = sha256;
  value = [];
  full_sha256 = none;
  local_md5 = none;
  reused_from_state = reused;
}

abbrev pub f_file : Bool → LocalFileEntry
f_file reused = record {
  root_id = [];
  local_path = (b'f' ∷ []) ∷ a_name ∷ local_root;
  relative_path = f_name;
  remote_path = under_root f_name;
  normalized_remote_path = under_root f_name;
  upload_source = (b'f' ∷ []) ∷ a_name ∷ local_root;
  size_bytes = 7;
  mtime_ns = none;
  ctime_ns = none;
  fingerprint = fingerprint reused;
  sqlite_backup_staging_path = none;
}

abbrev pub live_plan : Bool → LiveScanPlan
live_plan reused = record {
  root_id = [];
  root_local_path = local_root;
  files = f_file reused ∷ [];
  directories = a_directory ∷ [];
  deleted_subtrees = [];
}

abbrev pub resource : Text → ResourceType → ResourceMetadata
resource path resource_type = record {
  path = path;
  name = none;
  resource_type = resource_type;
  size_bytes = none;
  md5 = none;
  revision = none;
  created = none;
  modified = none;
}

abbrev pub entry : Text → ResourceType → Text × ResourceMetadata
entry path resource_type = (path, resource path resource_type)

-- What stands on the remote side when all is in step, and with a file `x` that is too much.
abbrev pub inventory_in_sync : Inventory
inventory_in_sync =
    entry remote_root directory_resource
    ∷ entry (under_root a_name) directory_resource
    ∷ entry (under_root f_name) file_resource
    ∷ []

abbrev pub inventory_with_extra : Inventory
inventory_with_extra =
    entry remote_root directory_resource
    ∷ entry (under_root a_name) directory_resource
    ∷ entry (under_root f_name) file_resource
    ∷ entry (under_root x_name) file_resource
    ∷ []

abbrev pub root_config : SyncRootConfig
root_config = record {
  id = [];
  name = [];
  enabled = true;
  local_path = b'/' ∷ b'b' ∷ [];
  remote_path_override = none;
  legacy_remote_paths = [];
  excludes = [];
}

abbrev pub platform : Platform
platform = record {
  path_from = λ t. local_root;
  stable_string = λ p. [];
  to_lowercase = λ t. t;
  to_string = λ n. [];
  format_timestamp = λ n. [];
  parse_timestamp = λ t. none;
}

abbrev known : List Text
known = remote_root ∷ under_root a_name ∷ under_root f_name ∷ []

-- What stands before a slash of the text.
slash_prefixes : Text → List Text
slash_prefixes [] = []
slash_prefixes (c ∷ s) =
    let rest = map (λ (p : Text). c ∷ p) (slash_prefixes s) in
    if is_slash c then [] ∷ rest else rest

In-map : (c : ℕ) (p : Text) (ps : List Text) → In p ps → In (c ∷ p) (map (λ (q : Text). c ∷ q) ps)
In-map c p [] m = absurd m
In-map c p (q ∷ ps) (inl e) = inl (ap (λ (z : Text). c ∷ z) e)
In-map c p (q ∷ ps) (inr m) = inr (In-map c p ps m)

slash_prefixes_complete : (p r : Text) → In p (slash_prefixes (p ++ (slash ∷ r)))
unfolding slash_prefixes
slash_prefixes_complete [] r = inl refl
slash_prefixes_complete (c ∷ p) r = elim (Bool-cases (is_slash c)) [
  | inl e ↦ rw e (inr (In-map c p _ (slash_prefixes_complete p r)))
  | inr n ↦ rw n (In-map c p _ (slash_prefixes_complete p r))
]

-- Each prefix lies outside the root or is known.
abbrev Listed : List Text → Type 0
Listed ps = All (λ p. ((not (is_within p remote_root) || contains known p) ≡ true)) ps

In-Listed : (p : Text) (ps : List Text) → In p ps → Listed ps → Below p remote_root → In p known
In-Listed p [] m h b = absurd m
In-Listed p (q ∷ ps) (inl e) h b = contains_sound known p (
    let w = is_within_complete p remote_root (inr b) in
    let k : (not (is_within p remote_root) || contains known p) ≡ true =
      subst (λ (z : Text). (not (is_within z remote_root) || contains known z) ≡ true) (sym e)
        h.0 in
    ground arith)
In-Listed p (q ∷ ps) (inr m) h b = In-Listed p ps m h.1 b

known-Listed : All (λ live. Listed (slash_prefixes live)) known
unfolding slash_prefixes is_within contains strip_prefix starts_with_slash ◌==◌
known-Listed = ((refl, tt), ((refl, (refl, tt)), ((refl, (refl, (refl, tt))), tt)))

pub live_plan-HasParents :
    (reused : Bool) → HasParents remote_root (known_of_plan remote_root (live_plan reused))
unfolding known_of_plan known_live_remote_paths live_directories live_files is_relative_path_deleted
    trim_end_matches trim_start_matches any
live_plan-HasParents reused live parent m (r, e) b =
    In-Listed parent (slash_prefixes live)
      (subst (λ (z : Text). In parent (slash_prefixes z)) (sym e)
        (slash_prefixes_complete parent r))
      (In_of_All (λ z. Listed (slash_prefixes z)) known live known-Listed m) b

abbrev pub no_totals : SyncRunSummary
no_totals = record {
  scanned_files = 0;
  uploaded_files = 0;
  updated_files = 0;
  deleted_files = 0;
  skipped_files = 0;
  failed_files = 0;
  bytes_uploaded = 0;
  error_summary = none;
}

abbrev pub root_summary : RootSyncSummary
root_summary = record {
  root_id = [];
  local_path = [];
  canonical_remote_path = remote_root;
  status = root_succeeded;
  scanned_files = 2;
  uploaded_files = 1;
  updated_files = 0;
  deleted_files = 1;
  skipped_files = 0;
  failed_files = 0;
  bytes_uploaded = 7;
  error_summary = none;
}

-- The one deletion: of the file `x`.
abbrev pub x_deletion : RemoteDeleteOperation
x_deletion = record {
  root_id = [];
  remote_path = under_root x_name;
  relative_path = x_name;
  resource_type = file_resource;
}

pub x_is_deleted :
    In x_deletion
      (collect_coalesced_delete_operations [] remote_root (live_plan true) inventory_with_extra)
unfolding collect_coalesced_delete_operations known_of_plan known_live_remote_paths live_directories
    live_files sorted_resources collect_loop collect_step collect_unknown collect_at delete_subtree
    delete_operation is_suppressed is_delete_candidate remote_delete_candidate_relative_path
    is_disk_segment has_live_descendants all_but_last missing_prefix_loop remote_segments
    top_missing_remote_directory_prefix le_resource le_delete sort_by insert_by filter any ◌==◌
    strip_prefix trim_end_matches trim_start_matches is_empty starts_with count_slashes
    to_ascii_lowercase split le_text values relative_remote_path is_relative_path_deleted contains
    is_within
x_is_deleted = inl refl
