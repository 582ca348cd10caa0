-- ===== src/Core/PathMapping.antt =====
-- crates/yds-core/src/path_mapping.rs: from a local root to its canonical remote path.
pub mod Laws
pub mod Fixed
use ya_disk_sync.Base.{
  ℕ, Bool, true, false, ◌&&◌, ◌||◌, not, Option, none, some, List, [], ◌∷◌, ◌++◌, nat_eq,
  if◌then◌else◌, filter, any,
}
use ya_disk_sync.Base.Result.{Result, ok, err, is_ok, ◌>>=◌, try_map}
use ya_disk_sync.Base.Text.{
  Text, text, slash, ◌==◌, strip_prefix, trim, trim_matches, is_empty, is_control,
  is_ascii_alphabetic, to_ascii_uppercase, is_slash,
}
use ya_disk_sync.Base.Text.Split.{split, join}

pub data PathMappingError : Type 0 where
  invalid_remote_root : PathMappingError
  invalid_local_path : PathMappingError
  unsupported_unc_path : PathMappingError
  unsupported_drive_relative_path : PathMappingError
  empty_sanitized_segment : Text → PathMappingError
  relative_segment : Text → PathMappingError

-- `disk:/`
abbrev pub remote_prefix : Text
remote_prefix = b'd' ∷ b'i' ∷ b's' ∷ b'k' ∷ b':' ∷ slash ∷ []

-- The characters < > : " | ? * \.
abbrev pub reserved_remote_chars : List ℕ
reserved_remote_chars = 60 ∷ 62 ∷ 58 ∷ 34 ∷ 124 ∷ 63 ∷ 42 ∷ 92 ∷ []

-- The filter of `sanitize_segment`.
unfoldable pub is_kept : ℕ → Bool
unfolding any is_control
is_kept c =
    not (is_control c) && not (any (λ r. nat_eq r c) reserved_remote_chars) && not (is_slash c)

unfoldable pub sanitize_segment : Text → Result Text PathMappingError
unfolding filter is_empty
sanitize_segment segment =
    let sanitized = filter is_kept segment in
    if is_empty sanitized then err (empty_sanitized_segment segment) else ok sanitized

unfoldable pub build_remote_path : List Text → Result Text PathMappingError
unfolding join
build_remote_path [] = err invalid_remote_root
build_remote_path (w ∷ ws) = ok (remote_prefix ++ join (w ∷ ws))

-- What stands behind `disk:/` once the text is trimmed, without the slashes at its ends.
remote_body : Option Text → Result (List Text) PathMappingError
unfolding trim_matches is_empty split try_map
remote_body none = err invalid_remote_root
remote_body (some rest) =
    let body = trim_matches is_slash rest in
    if is_empty body
    then err invalid_remote_root
    else try_map sanitize_segment (split is_slash body)

unfoldable pub remote_root_segments : Text → Result (List Text) PathMappingError
unfolding remote_body trim strip_prefix
remote_root_segments remote_path = remote_body (strip_prefix (trim remote_path) remote_prefix)

unfoldable pub sanitize_remote_path : Text → Result Text PathMappingError
sanitize_remote_path remote_path = remote_root_segments remote_path >>= build_remote_path

unfoldable pub is_valid_remote_root : Text → Bool
is_valid_remote_root path = is_ok (sanitize_remote_path path)

-- Lower case over all of Unicode is the standard library's table: a parameter here.
unfoldable pub detect_remote_path_collision_key :
    (Text → Text) → Text → Result Text PathMappingError
detect_remote_path_collision_key to_lowercase remote_path =
    sanitize_remote_path remote_path >>= λ path. ok (to_lowercase path)

abbrev is_separator : ℕ → Bool
is_separator c = nat_eq c 92 || nat_eq c slash

-- A first byte that is an ASCII letter is the first character, and so on.
unfoldable pub is_windows_drive_path : Text → Bool
unfolding is_ascii_alphabetic
is_windows_drive_path (a ∷ b ∷ c ∷ _) = is_ascii_alphabetic a && nat_eq b b':' && is_separator c
is_windows_drive_path _ = false

unfoldable pub is_drive_relative_path : Text → Bool
unfolding is_windows_drive_path
is_drive_relative_path (a ∷ b ∷ rest) =
    is_ascii_alphabetic a && nat_eq b b':' && not (is_windows_drive_path (a ∷ b ∷ rest))
is_drive_relative_path _ = false

-- A segment of a local path.
unfoldable pub local_segment : Text → Result Text PathMappingError
unfolding sanitize_segment ◌==◌
local_segment segment =
    if segment == (b'.' ∷ []) || segment == (b'.' ∷ b'.' ∷ [])
    then err (relative_segment segment)
    else sanitize_segment segment

unfoldable pub split_local_segments : Text → Result (List Text) PathMappingError
unfolding split filter try_map is_empty local_segment
split_local_segments path =
    try_map local_segment (filter (λ segment. not (is_empty segment)) (split is_separator path))

-- `\\` or `//` at the start.
abbrev is_unc_path : Text → Bool
is_unc_path (a ∷ b ∷ _) = (nat_eq a 92 && nat_eq b 92) || (nat_eq a slash && nat_eq b slash)
is_unc_path _ = false

-- A path that starts with a drive letter, a colon and a separator.
drive_segments : Text → Result (List Text) PathMappingError
unfolding to_ascii_uppercase split_local_segments
drive_segments (drive ∷ _ ∷ _ ∷ rest) =
    split_local_segments rest >>= λ segments. ok ((to_ascii_uppercase drive ∷ []) ∷ segments)
drive_segments _ = err invalid_local_path

absolute_segments : Text → Result (List Text) PathMappingError
unfolding split_local_segments
absolute_segments [] = err invalid_local_path
absolute_segments (c ∷ rest) =
    if is_slash c then split_local_segments rest else err invalid_local_path

unfoldable pub local_path_segments : Text → Result (List Text) PathMappingError
unfolding drive_segments absolute_segments is_drive_relative_path trim
local_path_segments local_path =
    let trimmed = trim local_path in
    if is_unc_path trimmed
    then err unsupported_unc_path
    else if is_drive_relative_path trimmed
    then err unsupported_drive_relative_path
    else if is_windows_drive_path trimmed
    then drive_segments trimmed
    else absolute_segments trimmed

mapped_remote_path : Text → Text → Result Text PathMappingError
mapped_remote_path remote_root local_path = remote_root_segments remote_root >>= λ remote_segments.
    local_path_segments local_path >>= λ local_segments.
    build_remote_path (remote_segments ++ local_segments)

-- An override that is blank counts as none.
unfoldable pub canonical_remote_path : Text → Text → Option Text → Result Text PathMappingError
unfolding mapped_remote_path is_empty trim sanitize_remote_path remote_root_segments
    local_path_segments build_remote_path
canonical_remote_path remote_root local_path none = mapped_remote_path remote_root local_path
canonical_remote_path remote_root local_path (some value) =
    if is_empty (trim value)
    then mapped_remote_path remote_root local_path
    else sanitize_remote_path value
