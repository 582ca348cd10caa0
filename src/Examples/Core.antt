-- ===== src/Examples/Core.antt =====
-- Path mapping, exclusions and validation at concrete inputs.
use ya_disk_sync.Base.{
  ◌≡◌, refl, true, false, ◌&&◌, none, [], ◌∷◌, ◌++◌, In, ltb, ◌+◌, ◌*◌, ◌<◌, ◌↔◌, ◌≢◌, arith, All,
  Pairwise,
}
use ya_disk_sync.Base.Result.{ok}
use ya_disk_sync.Base.Text.{Text, text, slash, trim, Within, replace_backslash}
use ya_disk_sync.Base.{any, filter}
use ya_disk_sync.Base.Text.{
  is_empty, contains, is_ascii_alphabetic, is_control, is_whitespace, strip_prefix,
  to_ascii_uppercase, trim_end_matches, trim_matches, trim_start_matches, ◌==◌,
}
use ya_disk_sync.Base.Result.{try_map}
use ya_disk_sync.Base.Text.Split.{cons_head, split, join}
use ya_disk_sync.Core.PathMapping.{
  is_valid_remote_root, remote_root_segments, sanitize_segment, build_remote_path,
  is_drive_relative_path, is_windows_drive_path, local_path_segments, split_local_segments,
}
use ya_disk_sync.Core.Exclusions.Laws.{decision_for_path-absolute}
use ya_disk_sync.Core.Exclusions.{looks_like_windows_path, validate_rule}
use ya_disk_sync.Core.Validation.{
  validate_top_level, push_if, validate_non_empty, is_time_of_parts, split_once_colon, byte_length,
  below_option, parse_u8, format_exclusion_error, format_path_error, insert_id, insert_key,
  is_loopback_bind, lookup_key, parse_digits, report_previous, roots_loop, validate_client_id,
  validate_exclude_rule, validate_exclude_rules, validate_id, validate_key, validate_legacy_path,
  validate_legacy_paths, validate_root, validate_roots,
}
use ya_disk_sync.Core.Config.{SyncConfig, SyncRootConfig, AppConfig}
use ya_disk_sync.Core.PathMapping.{
  is_kept, local_segment, canonical_remote_path, sanitize_remote_path,
  detect_remote_path_collision_key,
}
use ya_disk_sync.Core.PathMapping.Laws.{IsCanonical, canonical_remote_path-IsCanonical}
use ya_disk_sync.Core.PathMapping.Fixed.{canonical_remote_path_fixed, local_segment_hidden_parent}
use ya_disk_sync.Core.Exclusions.{
  unmatched, IgnoreCrate, ExclusionMatcher, excluded, absolute, new_matcher, add_rules,
  or_invalid_rule, normalize_absolute_path, decision_for_path,
}
use ya_disk_sync.Core.Validation.{
  Outside, collision_key, validate_config, validate_sync_config, is_valid_utc_time,
}
use ya_disk_sync.Core.Validation.Roots.{ApartRoots, validate_config_roots}
use ya_disk_sync.Core.Validation.Options.{is_valid_utc_time_digits, validate_sync_config_iff}
use ya_disk_sync.Examples.Data.{remote_root}

local_segment_hidden_parent_example :
    local_segment (b'.' ∷ b':' ∷ b'.' ∷ []) ≡ ok (b'.' ∷ b'.' ∷ [])
unfolding is_kept
local_segment_hidden_parent_example = local_segment_hidden_parent b':' refl

-- The local root `/b` under `disk:/b`.
abbrev pub canonical : Text
canonical = remote_root ++ slash ∷ b'b' ∷ []

mapped : canonical_remote_path remote_root (b'/' ∷ b'b' ∷ []) none ≡ ok canonical
unfolding canonical_remote_path is_kept
mapped = refl

canonical_remote_path-IsCanonical_example : IsCanonical canonical
canonical_remote_path-IsCanonical_example =
    canonical_remote_path-IsCanonical remote_root (b'/' ∷ b'b' ∷ []) none canonical mapped

canonical_remote_path_fixed_example :
    (sanitize_remote_path canonical ≡ ok canonical)
    × (detect_remote_path_collision_key (λ t. t) canonical ≡ ok canonical)
unfolding trim
canonical_remote_path_fixed_example =
    canonical_remote_path_fixed (λ t. t) remote_root (b'/' ∷ b'b' ∷ []) none canonical mapped refl

is_valid_utc_time_digits_example :
    is_valid_utc_time ((b'0' + 2) ∷ (b'0' + 3) ∷ b':' ∷ (b'0' + 5) ∷ (b'0' + 9) ∷ [])
    ≡ (ltb (10 * 2 + 3) 24 && ltb (10 * 5 + 9) 60)
is_valid_utc_time_digits_example =
    is_valid_utc_time_digits 2 3 5 9 (omega arith) (omega arith) (omega arith) (omega arith)

-- A crate that takes every line and matches nothing.
abbrev crate : IgnoreCrate
crate = record {
  add_line = λ added line. none;
  build = λ lines. none;
  matched_path_or_any_parents = λ lines path is_dir. unmatched;
}

-- `/x`
abbrev x_path : Text
x_path = b'/' ∷ b'x' ∷ []

abbrev matcher : ExclusionMatcher
matcher = record { patterns = (b'*' ∷ []) ∷ []; absolute_excludes = x_path ∷ [] }

decision_for_path-absolute_example :
    (matcher.patterns ≡ ((b'*' ∷ []) ∷ []) ++ [])
    × ((decision_for_path crate (λ t. t) matcher (x_path ++ b'/' ∷ b'y' ∷ []) false
          ≡ excluded absolute)
        ↔ ((x : Text) × In x (x_path ∷ [])
            × Within
                (normalize_absolute_path (λ t. t) (replace_backslash (x_path ++ b'/' ∷ b'y' ∷ [])))
                (normalize_absolute_path (λ t. t) x)))
unfolding new_matcher add_rules or_invalid_rule normalize_absolute_path validate_rule is_empty trim
    any is_control looks_like_windows_path replace_backslash is_ascii_alphabetic
decision_for_path-absolute_example =
    decision_for_path-absolute crate (λ t. t) ((b'*' ∷ []) ∷ []) [] (x_path ∷ []) matcher
      (x_path ++ b'/' ∷ b'y' ∷ []) false refl

abbrev pub outside : Outside
outside = record { to_string = λ n. []; to_lowercase = λ t. t; ignore_crate = crate }

abbrev pub sync_config : SyncConfig
sync_config = record {
  max_file_size_bytes = 100;
  full_hash_max_bytes = 10;
  large_file_name_size_only_min_bytes = 20;
  upload_concurrency = 2;
  create_directory_concurrency = 8;
  scan_concurrency = 0;
  retry_attempts = 3;
  retry_delay_seconds = 30;
  force_remote_rescan = false;
  remote_inventory_cache_ttl_hours = 168;
  delete_remote_extras = true;
  delete_permanently = true;
  delete_after_uploads = true;
  dry_run_enabled = false;
}

abbrev root_at : Text → SyncRootConfig
root_at name = record {
  id = name;
  name = name;
  enabled = true;
  local_path = slash ∷ name;
  remote_path_override = none;
  legacy_remote_paths = [];
  excludes = [];
}

abbrev word : Text
word = b'w' ∷ []

abbrev pub config : AppConfig
config = record {
  version = 1;
  instance_config = record {
    name = word;
    remote_root = remote_root;
    auto_include_hostname = false;
  };
  paths = record { state_db = word; logs_dir = word; staging_dir = word };
  schedule = record {
    enabled = true;
    start_time_utc = b'2' ∷ b'3' ∷ b':' ∷ b'0' ∷ b'0' ∷ [];
    run_missed_on_startup = false;
    allow_manual_run = true;
    allow_continuous_debug_mode = false;
  };
  sync = sync_config;
  yandex_disk = record {
    oauth_scope = text "disk";
    account_alias = word;
    import_yacli_auth_if_available = false;
    client_name = word;
    oauth_client_id = none;
  };
  web_ui = record {
    enabled = true;
    bind_address = text "127.0.0.1";
    port = 17691;
    require_auth_when_non_loopback = true;
  };
  logging = record { format = text "text"; retention_days = 7; level = text "info" };
  global_excludes = word ∷ [];
  absolute_excludes = [];
  roots = root_at (b'a' ∷ []) ∷ root_at (b'b' ∷ []) ∷ [];
}

config_is_valid : validate_config outside config ≡ []
unfolding validate_top_level push_if validate_non_empty is_time_of_parts split_once_colon
    byte_length below_option parse_u8 format_exclusion_error format_path_error insert_id insert_key
    is_loopback_bind lookup_key parse_digits report_previous roots_loop validate_client_id
    validate_exclude_rule validate_exclude_rules validate_id validate_key validate_legacy_path
    validate_legacy_paths validate_root validate_roots is_valid_remote_root remote_root_segments
    sanitize_segment build_remote_path is_drive_relative_path is_windows_drive_path
    local_path_segments split_local_segments looks_like_windows_path validate_rule any filter
    is_empty contains is_ascii_alphabetic is_control is_whitespace strip_prefix to_ascii_uppercase
    trim_end_matches trim_matches trim_start_matches ◌==◌ validate_config validate_sync_config trim
    sanitize_remote_path is_kept is_valid_utc_time replace_backslash text add_rules new_matcher
    normalize_absolute_path or_invalid_rule canonical_remote_path detect_remote_path_collision_key
    local_segment collision_key try_map cons_head join split
config_is_valid = refl

validate_config_roots_example :
    (config.roots ≢ [])
    × All
        (λ (r : SyncRootConfig). (key : Text) × (collision_key outside remote_root r ≡ ok key))
        config.roots
    × Pairwise (ApartRoots outside remote_root) config.roots
validate_config_roots_example = validate_config_roots outside config config_is_valid

validate_sync_config_iff_example : (validate_sync_config sync_config ≡ []) ↔ (
    (0 < 100)
    × (0 < 10)
    × (10 < 20)
    × (0 < 2)
    × (0 < 8)
    × (0 < 3)
    × (0 < 30)
    × (0 < 168)
    × (true ≡ true)
    × (true ≡ true)
    × (true ≡ true)
    × (false ≡ false))
validate_sync_config_iff_example = validate_sync_config_iff sync_config
