-- ===== src/Core/Validation.antt =====
-- crates/yds-core/src/config.rs, `validate_config`: what a configuration must satisfy. Each check
-- gives the errors that it pushes, in their order.
pub mod Roots
pub mod Options
use ya_disk_sync.Base.{
  ℕ, suc, ◌+◌, ◌*◌, ◌-◌, ◌/◌, ◌%◌, Bool, true, false, ◌&&◌, ◌||◌, not, Option, none, some, List, [],
  ◌∷◌, ◌++◌, nat_eq, ltb, leb, if◌then◌else◌,
}
use ya_disk_sync.Base.Result.{Result, ok, err, ◌>>=◌}
use ya_disk_sync.Base.Text.{Text, text, ◌==◌, is_empty, trim, contains}
use ya_disk_sync.Core.Config.{AppConfig, SyncConfig, SyncRootConfig}
use ya_disk_sync.Core.PathMapping.{
  PathMappingError, invalid_remote_root, invalid_local_path, unsupported_unc_path,
  unsupported_drive_relative_path, empty_sanitized_segment, relative_segment, is_valid_remote_root,
  sanitize_remote_path, canonical_remote_path, detect_remote_path_collision_key,
}
use ya_disk_sync.Core.Exclusions.{ExclusionError, IgnoreCrate, new_matcher}

pub record ConfigValidationError : Type 0 where
  pub field : Text
  pub message : Text
  pub root_index : Option ℕ
  pub rule_index : Option ℕ

-- `ConfigValidationReport`
abbrev pub Report : Type 0
Report = List ConfigValidationError

unfoldable pub is_valid : Report → Bool
is_valid [] = true
is_valid (e ∷ es) = false

-- The standard library writes a number in decimal: a parameter, with lower case over all of
-- Unicode and the crate `ignore`.
pub record Outside : Type 0 where
  pub to_string : ℕ → Text
  pub to_lowercase : Text → Text
  pub ignore_crate : IgnoreCrate

-- `if test { report.push(field, message, root_index, rule_index) }`
unfoldable pub push_if : Bool → Text → Text → Option ℕ → Option ℕ → Report
push_if false field message root_index rule_index = []
push_if true field message root_index rule_index =
    record { field = field; message = message; root_index = root_index; rule_index = rule_index }
    ∷ []

unfoldable pub validate_non_empty : Text → Text → Report
validate_non_empty field value =
    push_if (is_empty (trim value)) field (text "must not be empty") none none

-- `value.split_once(':')`
unfoldable pub split_once_colon : Text → Option (Text × Text)
split_once_colon [] = none
split_once_colon (c ∷ s) =
    let rest = split_once_colon s in
    if nat_eq c b':' then some ([], s) else elim rest [ none ↦ none | some r ↦ some (c ∷ r.0, r.1) ]

-- The length of a text in bytes of UTF-8.
unfoldable pub byte_length : Text → ℕ
byte_length [] = 0
byte_length (c ∷ s) =
    (if ltb c 0x80 then 1 else if ltb c 0x800 then 2 else if ltb c 0x10000 then 3 else 4)
    + byte_length s

-- The digits of `parse::<u8>`, from the value so far: none for a character that is no digit and
-- for a value over 255.
unfoldable pub parse_digits : ℕ → Text → Option ℕ
parse_digits value [] = some value
parse_digits value (c ∷ s) =
    let rest = parse_digits (10 * value + (c - b'0')) s in
    if leb b'0' c && leb c b'9' && leb (10 * value + (c - b'0')) 255 then rest else none

-- `parse::<u8>`: a sign + may stand before the digits.
unfoldable pub parse_u8 : Text → Option ℕ
parse_u8 [] = none
parse_u8 (c ∷ s) =
    let signed = parse_digits 0 s in
    let unsigned = parse_digits 0 (c ∷ s) in
    if nat_eq c b'+' then (if is_empty s then none else signed) else unsigned

unfoldable pub below_option : ℕ → Option ℕ → Bool
below_option limit none = false
below_option limit (some n) = ltb n limit

unfoldable pub is_time_of_parts : Option (Text × Text) → Bool
is_time_of_parts none = false
is_time_of_parts (some (hour, minute)) =
    nat_eq (byte_length hour) 2
    && nat_eq (byte_length minute) 2
    && below_option 24 (parse_u8 hour)
    && below_option 60 (parse_u8 minute)

unfoldable pub is_valid_utc_time : Text → Bool
is_valid_utc_time value = is_time_of_parts (split_once_colon value)

unfoldable pub is_loopback_bind : Text → Bool
is_loopback_bind value =
    value == text "127.0.0.1" || value == text "localhost" || value == text "::1"

unfoldable pub validate_sync_config : SyncConfig → Report
validate_sync_config sync =
    push_if (nat_eq sync.max_file_size_bytes 0) (text "sync.max_file_size_bytes")
      (text "must be greater than 0") none none
    ++ push_if (nat_eq sync.full_hash_max_bytes 0) (text "sync.full_hash_max_bytes")
        (text "must be greater than 0") none none
    ++ push_if (leb sync.large_file_name_size_only_min_bytes sync.full_hash_max_bytes)
        (text "sync.large_file_name_size_only_min_bytes")
        (text "must be greater than full_hash_max_bytes") none none
    ++ push_if (nat_eq sync.upload_concurrency 0) (text "sync.upload_concurrency")
        (text "must be greater than 0") none none
    ++ push_if (nat_eq sync.create_directory_concurrency 0)
        (text "sync.create_directory_concurrency") (text "must be greater than 0") none none
    ++ push_if (nat_eq sync.retry_attempts 0) (text "sync.retry_attempts")
        (text "must be greater than 0") none none
    ++ push_if (nat_eq sync.retry_delay_seconds 0) (text "sync.retry_delay_seconds")
        (text "must be greater than 0") none none
    ++ push_if (nat_eq sync.remote_inventory_cache_ttl_hours 0)
        (text "sync.remote_inventory_cache_ttl_hours") (text "must be greater than 0") none none
    ++ push_if (not sync.delete_remote_extras) (text "sync.delete_remote_extras")
        (text "must be true in v1") none none
    ++ push_if (not sync.delete_permanently) (text "sync.delete_permanently")
        (text "must be true in v1") none none
    ++ push_if (not sync.delete_after_uploads) (text "sync.delete_after_uploads")
        (text "must be true in v1") none none
    ++ push_if sync.dry_run_enabled (text "sync.dry_run_enabled") (text "must be false in v1") none
        none

unfoldable pub validate_client_id : Option Text → Report
validate_client_id none = []
validate_client_id (some client_id) =
    validate_non_empty (text "yandex_disk.oauth_client_id") client_id

abbrev levels : List Text
levels = text "trace" ∷ text "debug" ∷ text "info" ∷ text "warn" ∷ text "error" ∷ []

unfoldable pub validate_top_level : AppConfig → Report
validate_top_level config =
    push_if (not (nat_eq config.version 1)) (text "version") (text "must be 1") none none
    ++ push_if (is_empty (trim config.instance_config.name)) (text "instance.name")
        (text "must not be empty") none none
    ++ push_if (not (is_valid_remote_root config.instance_config.remote_root))
        (text "instance.remote_root") (text "must be a valid disk:/ remote root") none none
    ++ push_if config.instance_config.auto_include_hostname (text "instance.auto_include_hostname")
        (text "must be false in config v1") none none
    ++ validate_non_empty (text "paths.state_db") config.paths.state_db
    ++ validate_non_empty (text "paths.logs_dir") config.paths.logs_dir
    ++ validate_non_empty (text "paths.staging_dir") config.paths.staging_dir
    ++ push_if (not (is_valid_utc_time config.schedule.start_time_utc))
        (text "schedule.start_time_utc") (text "must use HH:MM UTC format") none none
    ++ push_if config.schedule.run_missed_on_startup (text "schedule.run_missed_on_startup")
        (text "must be false in config v1") none none
    ++ validate_sync_config config.sync
    ++ push_if (not (config.yandex_disk.oauth_scope == text "disk"))
        (text "yandex_disk.oauth_scope") (text "must be disk") none none
    ++ validate_non_empty (text "yandex_disk.account_alias") config.yandex_disk.account_alias
    ++ validate_non_empty (text "yandex_disk.client_name") config.yandex_disk.client_name
    ++ validate_client_id config.yandex_disk.oauth_client_id
    ++ push_if
        (not (is_loopback_bind config.web_ui.bind_address)
          && not config.web_ui.require_auth_when_non_loopback)
        (text "web_ui.require_auth_when_non_loopback")
        (text "must be true when bind_address is not loopback") none none
    ++ push_if (not (config.logging.format == text "text")) (text "logging.format")
        (text "must be text") none none
    ++ push_if (nat_eq config.logging.retention_days 0) (text "logging.retention_days")
        (text "must be greater than 0") none none
    ++ push_if (not (contains levels config.logging.level)) (text "logging.level")
        (text "must be one of trace, debug, info, warn, error") none none

-- `to_string` of the error.
unfoldable pub format_path_error : PathMappingError → Text
format_path_error invalid_remote_root = text "remote path must start with disk:/"
format_path_error invalid_local_path =
    text "local path must be an absolute Windows drive path or an absolute Linux path"
format_path_error unsupported_unc_path = text "UNC paths are not supported in config v1"
format_path_error unsupported_drive_relative_path =
    text "drive-relative Windows paths are not supported in config v1"
format_path_error (empty_sanitized_segment segment) =
    text "path segment became empty after sanitization: " ++ segment
format_path_error (relative_segment segment) =
    text "relative path segments are not allowed: " ++ segment

module _ (outside : Outside) where
  unfoldable pub format_exclusion_error : ExclusionError → Text
  format_exclusion_error error =
      text "invalid exclude rule at index "
      ++ outside.to_string error.index
      ++ text ": "
      ++ error.message

  unfoldable pub validate_exclude_rule : Text → Option ℕ → ℕ → Text → Report
  validate_exclude_rule field root_index index rule =
      elim (new_matcher outside.ignore_crate outside.to_lowercase (rule ∷ []) [] []) [
        | ok m ↦ []
        | err error ↦ push_if true field (format_exclusion_error error) root_index (some index)
      ]

  -- From the index of the first rule on.
  unfoldable pub validate_exclude_rules : Text → Option ℕ → ℕ → List Text → Report
  validate_exclude_rules field root_index index [] = []
  validate_exclude_rules field root_index index (rule ∷ rules) =
      validate_exclude_rule field root_index index rule
      ++ validate_exclude_rules field root_index (suc index) rules

  unfoldable pub validate_legacy_path : ℕ → ℕ → Text → Report
  validate_legacy_path root_index rule_index legacy_path = elim (sanitize_remote_path legacy_path) [
    | ok path ↦ []
    | err error ↦
        push_if true (text "roots[].legacy_remote_paths") (format_path_error error)
          (some root_index) (some rule_index)
  ]

  unfoldable pub validate_legacy_paths : ℕ → ℕ → List Text → Report
  validate_legacy_paths root_index rule_index [] = []
  validate_legacy_paths root_index rule_index (path ∷ paths) =
      validate_legacy_path root_index rule_index path
      ++ validate_legacy_paths root_index (suc rule_index) paths

  -- The key under which the remote path of a root is compared with those of the others.
  unfoldable pub collision_key : Text → SyncRootConfig → Result Text PathMappingError
  collision_key remote_root root =
      canonical_remote_path remote_root root.local_path root.remote_path_override >>= λ path.
      detect_remote_path_collision_key outside.to_lowercase path

  -- The map from keys to root indices, the latest insertion first.
  unfoldable pub lookup_key : List (Text × ℕ) → Text → Option ℕ
  lookup_key [] key = none
  lookup_key ((k, index) ∷ rest) key =
      let further = lookup_key rest key in if k == key then some index else further

  -- What the insertion of a key returns is the index that the key had.
  unfoldable pub report_previous : ℕ → Option ℕ → Report
  report_previous root_index none = []
  report_previous root_index (some previous_index) =
      push_if true (text "roots[].local_path")
        (text "canonical remote path collides with root index " ++ outside.to_string previous_index)
        (some root_index) none

  unfoldable pub validate_key : ℕ → List (Text × ℕ) → Result Text PathMappingError → Report
  validate_key root_index canonical_paths (ok key) =
      report_previous root_index (lookup_key canonical_paths key)
  validate_key root_index canonical_paths (err error) =
      push_if true (text "roots[].local_path") (format_path_error error) (some root_index) none

  unfoldable pub insert_key : ℕ → List (Text × ℕ) → Result Text PathMappingError → List (Text × ℕ)
  insert_key root_index canonical_paths (ok key) = (key, root_index) ∷ canonical_paths
  insert_key root_index canonical_paths (err error) = canonical_paths

  unfoldable pub validate_id : ℕ → List Text → Text → Report
  validate_id index ids id =
      if is_empty (trim id)
      then push_if true (text "roots[].id") (text "must not be empty") (some index) none
      else push_if (contains ids id) (text "roots[].id") (text "duplicate root id") (some index)
          none

  -- What the loop checks of a root, `ids` and `canonical_paths` being those of the roots before.
  unfoldable pub validate_root : Text → ℕ → List Text → List (Text × ℕ) → SyncRootConfig → Report
  validate_root remote_root index ids canonical_paths root =
      validate_id index ids root.id
      ++ push_if (is_empty (trim root.name)) (text "roots[].name") (text "must not be empty")
          (some index) none
      ++ push_if (is_empty (trim root.local_path)) (text "roots[].local_path")
          (text "must not be empty") (some index) none
      ++ validate_exclude_rules (text "roots[].excludes") (some index) 0 root.excludes
      ++ validate_legacy_paths index 0 root.legacy_remote_paths
      ++ validate_key index canonical_paths (collision_key remote_root root)

  -- An identifier that is blank is not put into the set.
  unfoldable pub insert_id : List Text → Text → List Text
  insert_id ids id = if is_empty (trim id) then ids else id ∷ ids

  unfoldable pub roots_loop : Text → ℕ → List Text → List (Text × ℕ) → List SyncRootConfig → Report
  roots_loop remote_root index ids canonical_paths [] = []
  roots_loop remote_root index ids canonical_paths (root ∷ roots) =
      validate_root remote_root index ids canonical_paths root
      ++ roots_loop remote_root (suc index) (insert_id ids root.id)
          (insert_key index canonical_paths (collision_key remote_root root)) roots

  unfoldable pub validate_roots : Text → List SyncRootConfig → Report
  validate_roots remote_root [] =
      push_if true (text "roots") (text "must contain at least one root") none none
  validate_roots remote_root (root ∷ roots) = roots_loop remote_root 0 [] [] (root ∷ roots)

  unfoldable pub validate_config : AppConfig → Report
  validate_config config =
      validate_top_level config
      ++ validate_exclude_rules (text "global_excludes") none 0 config.global_excludes
      ++ validate_roots config.instance_config.remote_root config.roots
