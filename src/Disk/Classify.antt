-- ===== src/Disk/Classify.antt =====
-- Which HTTP statuses give which kinds of errors.
use ya_disk_sync.Base.{ℕ, ◌≡◌, ◌↔◌, ◌⊎◌, ◌≤◌, ◌<◌, true, false, Option, arith}
use ya_disk_sync.Base.Text.{Text}
use ya_disk_sync.Disk.{is_retryable, is_not_found, tells_quota, classify_http_status}

-- Only the status 404 counts as a resource that is not there, whatever the body of the answer says;
-- and worth another attempt are exactly 429 and the server errors, where nothing in the answer tells
-- of an exhausted quota.
pub classify_http_status_kinds :
    (status : ℕ) (api_code : Option Text) (message : Text)
    → ((is_not_found (classify_http_status status api_code message) ≡ true) ↔ (status ≡ 404))
      × ((is_retryable (classify_http_status status api_code message) ≡ true) ↔ (
          (tells_quota status api_code message ≡ false)
          × ((status ≡ 429) ⊎ ((500 ≤ status) × (status < 600)))))
unfolding classify_http_status is_retryable
classify_http_status_kinds status api_code message = (ground arith, ground arith)
