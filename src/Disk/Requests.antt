-- ===== src/Disk/Requests.antt =====
-- crates/yds-yandex-disk/src/lib.rs: creating a directory, uploading, deleting and polling.
use ya_disk_sync.Base.{
  ℕ, suc, zero, Bool, true, false, ◌&&◌, ◌||◌, not, Option, none, some, ◌++◌, nat_eq, leb, ltb,
  is_some_and, if◌then◌else◌,
}
use ya_disk_sync.Base.Result.{Result, ok, err}
use ya_disk_sync.Base.Text.{Text, text, ◌==◌}
use ya_disk_sync.Base.Exec.{pure, fail, ◌>>=◌, ◌>>◌}
use ya_disk_sync.Disk.{
  YandexDiskError, transient, permanent, has_substring, lower_code,
  disk_uploader_persistent_conflict, local_upload_source_unavailable,
}
use ya_disk_sync.Disk.Client.{
  Response, create_directory_request, delete_request, upload_link_request, upload_put,
  operation_request, UploadSource, source_bytes, source_file, file_opened, time_read, slept,
  ClientWorld, Client, M, ask, attempt_of, lift_result, new_error, response_json_with_context,
}
use ya_disk_sync.Disk.Send.{
  send, sleep_before_retry, by_response, send_authorized, send_authorized_json,
}

abbrev pub is_conflict : Option ℕ → Bool
is_conflict status = is_some_and status (λ code. nat_eq code 409)

unfoldable pub is_directory_already_exists : YandexDiskError → Bool
is_directory_already_exists error =
    is_conflict error.status
    && (has_substring (lower_code error.api_code) (text "pathpointstoexistent")
        || has_substring (lower_code error.api_code) (text "alreadyexists"))

unfoldable pub is_retryable_upload_conflict : YandexDiskError → Bool
is_retryable_upload_conflict error =
    is_conflict error.status
    && (not (has_substring (lower_code error.api_code) (text "doesntexist"))
        && (not (has_substring (lower_code error.api_code) (text "notfound"))
            && not
                (has_substring (lower_code error.api_code) (text "pathpointstoexistentdirectory"))))

unfoldable pub should_retry_upload_conflict : YandexDiskError → ℕ → ℕ → Bool
should_retry_upload_conflict error attempt attempts =
    ltb attempt attempts && is_retryable_upload_conflict error

unfoldable pub persistent_upload_conflict_error : Text → YandexDiskError
persistent_upload_conflict_error remote_path = record {
  kind = permanent;
  message =
      text "Yandex Disk uploader returned persistent HTTP 409 Conflict for "
      ++ (remote_path ++ text "; exact file content was rejected by the upload endpoint");
  status = some 409;
  api_code = some disk_uploader_persistent_conflict;
}

unfoldable pub source_unavailable_error : Text → Text → YandexDiskError
source_unavailable_error path error = record {
  kind = permanent;
  message = text "failed to open upload source " ++ (path ++ (text ": " ++ error));
  status = some 500;
  api_code = some local_upload_source_unavailable;
}

-- `OperationStatus` of models.rs.
pub data RemoteOperationStatus : Type 0 where
  in_progress success failed : RemoteOperationStatus

unfoldable pub status_from_api : Text → Result RemoteOperationStatus YandexDiskError
unfolding ◌==◌ text
status_from_api value =
    if value == text "in-progress" || value == text "in_progress"
    then ok in_progress
    else if value == text "success"
    then ok success
    else if value == text "failed"
    then ok failed
    else err (new_error permanent (text "unknown Yandex Disk operation status: " ++ value))

module _ (world : ClientWorld) (client : Client) where
  unfoldable pub after_creation : Result Response YandexDiskError → M (Unit {0})
  after_creation (ok response) = pure tt
  after_creation (err error) = if is_directory_already_exists error then pure tt else fail error

  unfoldable pub create_directory_inner : Text → M (Unit {0})
  create_directory_inner remote_path =
      attempt_of (send_authorized world client (create_directory_request remote_path))
      >>= after_creation

  abbrev open_outcome : Text → Result (Unit {0}) Text → Result (Unit {0}) YandexDiskError
  open_outcome path (ok u) = ok u
  open_outcome path (err error) = err (source_unavailable_error path error)

  -- What making the request does before it is sent.
  unfoldable pub upload_request : UploadSource → M (Unit {0})
  upload_request (source_bytes content) = pure tt
  upload_request (source_file path) =
      ask (file_opened path) (λ events. open_outcome path (world.open_file events path))

  -- The number of attempts that are left, and that of the next one.
  unfoldable pub source_loop : Text → UploadSource → ℕ → ℕ → M Response
  source_loop upload_url source zero attempt =
      fail (new_error transient (text "upload retry attempts were exhausted"))
  source_loop upload_url source (suc left) attempt = do
    upload_request source
    response ← send world client none (upload_put upload_url source)
    by_response world client attempt response (source_loop upload_url source left (suc attempt))

  unfoldable pub send_upload_source : Text → UploadSource → M Response
  send_upload_source upload_url source =
      source_loop upload_url source client.retry_policy.attempts 1

  -- The outcome of one attempt to upload.
  unfoldable pub after_put :
      Text → ℕ → Result Response YandexDiskError → M (Unit {0}) → M (Unit {0})
  after_put remote_path attempt (ok response) again = pure tt
  after_put remote_path attempt (err error) again =
      if is_retryable_upload_conflict error && leb client.retry_policy.attempts attempt
      then fail (persistent_upload_conflict_error remote_path)
      else if should_retry_upload_conflict error attempt client.retry_policy.attempts
      then sleep_before_retry world client >> again
      else fail error

  unfoldable pub upload_loop : Text → UploadSource → Bool → ℕ → ℕ → Bool → M (Unit {0})
  upload_loop remote_path source overwrite zero attempt had_conflict =
      if had_conflict
      then fail (persistent_upload_conflict_error remote_path)
      else fail (new_error transient (text "upload retry attempts were exhausted: " ++ remote_path))
  upload_loop remote_path source overwrite (suc left) attempt had_conflict = do
    href ←
        send_authorized_json world client (λ (r : Response). r.link)
          (text "upload link path=" ++ remote_path) (upload_link_request remote_path overwrite)
    outcome ← attempt_of (send_upload_source href source)
    after_put remote_path attempt outcome
        (upload_loop remote_path source overwrite left (suc attempt) true)

  unfoldable pub upload_inner : Text → UploadSource → Bool → M (Unit {0})
  upload_inner remote_path source overwrite =
      upload_loop remote_path source overwrite client.retry_policy.attempts 1 false

  -- What a poll has answered; `again` polls once more.
  unfoldable pub by_status :
      Bool → RemoteOperationStatus → M RemoteOperationStatus → M RemoteOperationStatus
  by_status is_over success again = pure success
  by_status is_over failed again =
      fail (new_error permanent (text "Yandex Disk async operation failed"))
  by_status is_over in_progress again =
      if is_over
      then fail (new_error transient (text "Yandex Disk async operation polling timed out"))
      else ask slept (λ events. ok tt) >> again

  unfoldable pub poll_once : Text → Text → M RemoteOperationStatus
  poll_once href url = do
    value ←
        send_authorized_json world client (λ (r : Response). r.operation_status)
          (text "operation poll href=" ++ href) (operation_request url)
    lift_result (status_from_api value)

  -- The number is that of the polls before the one that finds the clock past the timeout.
  unfoldable pub poll_loop : Text → Text → ℕ → M RemoteOperationStatus
  poll_loop href url zero = poll_once href url >>= λ status. by_status true status (pure status)
  poll_loop href url (suc polls) =
      poll_once href url >>= λ status. by_status false status (poll_loop href url polls)

  unfoldable pub poll_operation_inner : Text → M RemoteOperationStatus
  poll_operation_inner href = do
    url ← lift_result (world.absolute_href href)
    polls ← ask time_read (λ events. ok (world.polls_in_time events))
    poll_loop href url polls

  unfoldable pub delete_permanently_inner : Text → M (Unit {0})
  delete_permanently_inner remote_path = do
    response ← send_authorized world client (delete_request remote_path)
    (if nat_eq response.status 202
        then (do
          href ← lift_result (
              response_json_with_context response.link
                (text "operation link delete path=" ++ remote_path))
          poll_operation_inner href
          pure tt)
        else pure tt)
