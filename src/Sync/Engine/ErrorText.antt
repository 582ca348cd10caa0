-- ===== src/Sync/Engine/ErrorText.antt =====
-- `SyncError`'s texts. The text inside an error of another crate is the text of that error.
use ya_disk_sync.Base.{◌++◌}
use ya_disk_sync.Base.Text.{Text, text}
use ya_disk_sync.Core.Validation.{format_path_error}
use ya_disk_sync.Disk.{error_to_string}
use ya_disk_sync.Sync.Engine.World.{
  SyncError, config_invalid, already_running, io_error, path_mapping_error, scanner_error,
  state_error, yandex_disk_error, migration_error, join_error,
}

-- A path mapping error displays as `format_path_error` writes it.
unfoldable pub sync_error_to_string : SyncError → Text
unfolding text format_path_error error_to_string
sync_error_to_string (config_invalid errors) = text "config validation failed: " ++ errors
sync_error_to_string already_running = text "sync run is already running"
sync_error_to_string (io_error error) = text "I/O error at " ++ error
sync_error_to_string (path_mapping_error root_id source) =
    text "path mapping error for root " ++ (root_id ++ (text ": " ++ format_path_error source))
sync_error_to_string (scanner_error error) = text "scanner error: " ++ error
sync_error_to_string (state_error error) = text "state error: " ++ error
sync_error_to_string (yandex_disk_error error) = text "Yandex Disk error: " ++ error_to_string error
sync_error_to_string (migration_error error) = text "migration error: " ++ error
sync_error_to_string (join_error error) = text "upload task failed to join: " ++ error
