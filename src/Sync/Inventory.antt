-- ===== src/Sync/Inventory.antt =====
-- crates/yds-sync/src/lib.rs: the remote inventory, a `BTreeMap` from paths to resources, and the
-- conversions between resources and the records of the state database.
use mathlib.Core.Option
use mathlib.Core.List.{reverse}
use ya_disk_sync.Base.{
  ℕ, Bool, true, ◌||◌, not, ◌^◌, Option, none, some, List, [], ◌∷◌, ◌++◌, ltb, if◌then◌else◌,
  is_some_and,
}
use ya_disk_sync.Base.Text.{
  Text, ◌==◌, slash, is_slash, is_empty, strip_prefix, trim_end_matches, trim_start_matches,
}
use ya_disk_sync.Base.Text.Order.{le_text}
use ya_disk_sync.Base.Text.Split.{split}
use ya_disk_sync.Disk.{
  ResourceType, file_resource, directory_resource, ResourceMetadata, is_directory,
}
use ya_disk_sync.State.{RemoteResourceType, file_type, dir_type, RemoteResourceRecord}

-- Sorted by key, each key once.
abbrev pub Inventory : Type 0
Inventory = List (Text × ResourceMetadata)

unfoldable pub get_resource : Inventory → Text → Option ResourceMetadata
unfolding ◌==◌
get_resource [] k = none
get_resource ((j, r) ∷ m) k = if j == k then some r else get_resource m k

-- `resources.insert(key, resource)`
unfoldable pub insert_resource : Inventory → Text → ResourceMetadata → Inventory
unfolding ◌==◌ le_text
insert_resource [] k r = (k, r) ∷ []
insert_resource ((j, s) ∷ m) k r =
    let rest = insert_resource m k r in
    if j == k then (k, r) ∷ m else if le_text k j then (k, r) ∷ (j, s) ∷ m else (j, s) ∷ rest

-- `iter.map(|r| (r.path.clone(), r)).collect()`, and the loop that inserts a listing.
unfoldable pub insert_all : Inventory → List ResourceMetadata → Inventory
unfolding insert_resource
insert_all m [] = m
insert_all m (r ∷ rs) = insert_all (insert_resource m r.path r) rs

-- `resources.values()`
unfoldable pub values : Inventory → List ResourceMetadata
values [] = []
values ((k, r) ∷ m) = r ∷ values m

-- `matches!(inventory.get(path).map(|r| &r.resource_type), Some(ResourceType::Directory))`
unfoldable pub is_remote_directory : Inventory → Text → Bool
unfolding get_resource
is_remote_directory m path =
    is_some_and (get_resource m path) (λ (r : ResourceMetadata). is_directory r.resource_type)

unfoldable pub is_remote_file : Inventory → Text → Bool
unfolding get_resource
is_remote_file m path =
    is_some_and (get_resource m path) (λ (r : ResourceMetadata). not (is_directory r.resource_type))

-- The root with no slash at its end.
abbrev pub trimmed_root : Text → Text
trimmed_root root = trim_end_matches is_slash root

unfoldable pub relative_remote_path : Text → Text → Text
relative_remote_path canonical_remote_path remote_path =
    elim (strip_prefix remote_path (trimmed_root canonical_remote_path)) [
      | none ↦ trim_start_matches is_slash remote_path
      | some rest ↦ trim_start_matches is_slash rest
    ]

record_type : ResourceType → RemoteResourceType
record_type file_resource = file_type
record_type directory_resource = dir_type

resource_type_of : RemoteResourceType → ResourceType
resource_type_of file_type = file_resource
resource_type_of dir_type = directory_resource

-- A number that fits `i64`, and one that is not negative as an `i64`.
abbrev try_i64 : ℕ → Option ℕ
try_i64 n = if ltb n (2 ^ 63) then some n else none

unfoldable pub remote_resource_record : Text → ResourceMetadata → RemoteResourceRecord
unfolding record_type
remote_resource_record root_id resource = record {
  root_id = root_id;
  remote_path = resource.path;
  resource_type = record_type resource.resource_type;
  size_bytes = Option.bind resource.size_bytes try_i64;
  mtime_remote = resource.modified;
  remote_md5 = resource.md5;
}

first_non_empty : List Text → Option Text
unfolding is_empty
first_non_empty [] = none
first_non_empty (segment ∷ _) = if is_empty segment then none else some segment

-- `path.rsplit('/').next()`, and none if it is empty.
unfoldable pub last_segment : Text → Option Text
unfolding first_non_empty split
last_segment path = first_non_empty (reverse (split is_slash path))

unfoldable pub cached_resource_to_metadata : Text → RemoteResourceRecord → Option ResourceMetadata
unfolding ◌==◌ trim_end_matches strip_prefix last_segment resource_type_of
cached_resource_to_metadata canonical_remote_path cached =
    if cached.remote_path == canonical_remote_path
      || is_some_and
          (strip_prefix cached.remote_path (trimmed_root canonical_remote_path ++ (slash ∷ [])))
          (λ _. true)
    then some (record {
      path = cached.remote_path;
      name = last_segment cached.remote_path;
      resource_type = resource_type_of cached.resource_type;
      size_bytes = Option.bind cached.size_bytes try_i64;
      md5 = cached.remote_md5;
      revision = none;
      created = none;
      modified = cached.mtime_remote;
    })
    else none
