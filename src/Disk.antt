-- ===== src/Disk.antt =====
-- crates/yds-yandex-disk: remote resources and the kinds of its errors (error.rs, models.rs).
pub mod Classify
pub mod Client
pub mod Send
pub mod Requests
pub mod Attempts
pub mod Stored
pub mod Recovery
use ya_disk_sync.Base.{Bool, true, false, Option, none, is_some_and, ◌++◌, ◌∷◌}
use ya_disk_sync.Base.Text.{Text, text, ◌==◌, starts_with, to_ascii_lowercase}
use ya_disk_sync.Base.{ℕ, some, ◌||◌, List, [], map, ◌&&◌, nat_eq, leb, ltb, if◌then◌else◌}

pub data ResourceType : Type 0 where
  file_resource : ResourceType
  directory_resource : ResourceType

pub record ResourceMetadata : Type 0 where
  pub path : Text
  pub name : Option Text
  pub resource_type : ResourceType
  pub size_bytes : Option ℕ
  pub md5 : Option Text
  pub revision : Option ℕ
  pub created : Option Text
  pub modified : Option Text

-- `resource_type == ResourceType::Directory`
abbrev pub is_directory : ResourceType → Bool
is_directory file_resource = false
is_directory directory_resource = true

pub data YandexDiskErrorKind : Type 0 where
  transient permanent auth_unavailable quota_exceeded : YandexDiskErrorKind
  rate_limited not_found critical : YandexDiskErrorKind

unfoldable pub kind_as_str : YandexDiskErrorKind → Text
kind_as_str transient = text "transient"
kind_as_str permanent = text "permanent"
kind_as_str auth_unavailable = text "auth_unavailable"
kind_as_str quota_exceeded = text "quota_exceeded"
kind_as_str rate_limited = text "rate_limited"
kind_as_str not_found = text "not_found"
kind_as_str critical = text "critical"

unfoldable pub is_retryable : YandexDiskErrorKind → Bool
is_retryable transient = true
is_retryable rate_limited = true
is_retryable _ = false

-- The HTTP status is kept as its number.
pub record YandexDiskError : Type 0 where
  pub kind : YandexDiskErrorKind
  pub message : Text
  pub status : Option ℕ
  pub api_code : Option Text

abbrev pub disk_uploader_persistent_conflict : Text
disk_uploader_persistent_conflict = text "DiskUploaderPersistentConflict"

abbrev pub local_upload_source_unavailable : Text
local_upload_source_unavailable = text "LocalUploadSourceUnavailable"

unfoldable pub is_persistent_uploader_conflict : YandexDiskError → Bool
unfolding ◌==◌ text
is_persistent_uploader_conflict error =
    is_some_and error.api_code (λ code. code == disk_uploader_persistent_conflict)

unfoldable pub is_local_upload_source_unavailable : YandexDiskError → Bool
unfolding ◌==◌ text
is_local_upload_source_unavailable error =
    is_some_and error.api_code (λ code. code == local_upload_source_unavailable)

-- `YandexDiskError::critical(message)`
unfoldable pub critical_error : Text → YandexDiskError
critical_error message = record {
  kind = critical;
  message = message;
  status = none;
  api_code = none;
}

-- `error.kind() == YandexDiskErrorKind::NotFound`
abbrev pub is_not_found : YandexDiskErrorKind → Bool
is_not_found not_found = true
is_not_found _ = false

-- `error.to_string()`: the kind, a colon and the message.
unfoldable pub error_to_string : YandexDiskError → Text
unfolding kind_as_str text
error_to_string error = kind_as_str error.kind ++ (b':' ∷ b' ' ∷ error.message)

-- `s.contains(pattern)`
unfoldable pub has_substring : Text → Text → Bool
unfolding starts_with
has_substring [] pattern = starts_with [] pattern
has_substring (c ∷ s) pattern = starts_with (c ∷ s) pattern || has_substring s pattern

-- `api_code.unwrap_or_default().to_ascii_lowercase()`
unfoldable pub lower_code : Option Text → Text
lower_code none = []
lower_code (some code) = map to_ascii_lowercase code

-- The test for an exhausted quota.
unfoldable pub tells_quota : ℕ → Option Text → Text → Bool
unfolding has_substring lower_code text
tells_quota status api_code message =
    nat_eq status 507
    || has_substring (lower_code api_code) (text "quota")
    || has_substring (map to_ascii_lowercase message) (text "quota")
    || has_substring (map to_ascii_lowercase message) (text "not enough space")

unfoldable pub classify_http_status : ℕ → Option Text → Text → YandexDiskErrorKind
classify_http_status status api_code message =
    if nat_eq status 401 || nat_eq status 403
    then auth_unavailable
    else if nat_eq status 404
    then not_found
    else if tells_quota status api_code message
    then quota_exceeded
    else if nat_eq status 429
    then rate_limited
    else if leb 500 status && ltb status 600
    then transient
    else permanent
