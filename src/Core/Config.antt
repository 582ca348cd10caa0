-- ===== src/Core/Config.antt =====
-- crates/yds-core/src/config.rs: the configuration as it is read from its file.
use ya_disk_sync.Base.{ℕ, Bool, Option, List}
use ya_disk_sync.Base.Text.{Text}

pub record InstanceConfig : Type 0 where
  pub name : Text
  pub remote_root : Text
  pub auto_include_hostname : Bool

pub record PathsConfig : Type 0 where
  pub state_db : Text
  pub logs_dir : Text
  pub staging_dir : Text

pub record ScheduleConfig : Type 0 where
  pub enabled : Bool
  pub start_time_utc : Text
  pub run_missed_on_startup : Bool
  pub allow_manual_run : Bool
  pub allow_continuous_debug_mode : Bool

pub record SyncConfig : Type 0 where
  pub max_file_size_bytes : ℕ
  pub full_hash_max_bytes : ℕ
  pub large_file_name_size_only_min_bytes : ℕ
  pub upload_concurrency : ℕ
  pub create_directory_concurrency : ℕ
  pub scan_concurrency : ℕ
  pub retry_attempts : ℕ
  pub retry_delay_seconds : ℕ
  pub force_remote_rescan : Bool
  pub remote_inventory_cache_ttl_hours : ℕ
  pub delete_remote_extras : Bool
  pub delete_permanently : Bool
  pub delete_after_uploads : Bool
  pub dry_run_enabled : Bool

pub record YandexDiskConfig : Type 0 where
  pub oauth_scope : Text
  pub account_alias : Text
  pub import_yacli_auth_if_available : Bool
  pub client_name : Text
  pub oauth_client_id : Option Text

pub record WebUiConfig : Type 0 where
  pub enabled : Bool
  pub bind_address : Text
  pub port : ℕ
  pub require_auth_when_non_loopback : Bool

pub record LoggingConfig : Type 0 where
  pub format : Text
  pub retention_days : ℕ
  pub level : Text

pub record SyncRootConfig : Type 0 where
  pub id : Text
  pub name : Text
  pub enabled : Bool
  pub local_path : Text
  pub remote_path_override : Option Text
  pub legacy_remote_paths : List Text
  pub excludes : List Text

pub record AppConfig : Type 0 where
  pub version : ℕ
  pub instance_config : InstanceConfig
  pub paths : PathsConfig
  pub schedule : ScheduleConfig
  pub sync : SyncConfig
  pub yandex_disk : YandexDiskConfig
  pub web_ui : WebUiConfig
  pub logging : LoggingConfig
  pub global_excludes : List Text
  pub absolute_excludes : List Text
  pub roots : List SyncRootConfig
