-- ===== src/Disk/Client.antt =====
-- crates/yds-yandex-disk/src/lib.rs and error.rs: requests with their attempts.
use ya_disk_sync.Base.{
  ℕ, Bool, ◌&&◌, ◌||◌, Option, none, some, List, ◌∷◌, ◌++◌, leb, ltb, unwrap_or, if◌then◌else◌,
}
use ya_disk_sync.Base.Result.{Result, ok, err}
use ya_disk_sync.Base.Text.{Text, text}
use ya_disk_sync.Disk.{
  YandexDiskError, YandexDiskErrorKind, transient, permanent, is_retryable, classify_http_status,
}
use ya_disk_sync.Base.Exec.{Exec}

-- An error of the crate `reqwest`, with what its tests answer and its text.
pub record ReqwestError : Type 0 where
  pub is_timeout : Bool
  pub is_connect : Bool
  pub is_request : Bool
  pub is_body : Bool
  pub is_decode : Bool
  pub message : Text

pub record ApiErrorPayload : Type 0 where
  pub error : Option Text
  pub description : Option Text
  pub message : Option Text

-- An answer, with what reading its body in each of the expected forms gives.
pub record Response : Type 0 where
  pub status : ℕ
  pub error_payload : Option ApiErrorPayload
  pub link : Result Text ReqwestError
  pub operation_status : Result Text ReqwestError

pub record StoredToken : Type 0 where
  pub access_token : Text
  pub refresh_token : Option Text

pub data UploadSource : Type 0 where
  source_bytes : Text → UploadSource
  source_file : Text → UploadSource

pub data Request : Type 0 where
  create_directory_request : Text → Request
  delete_request : Text → Request
  upload_link_request : Text → Bool → Request
  upload_put : Text → UploadSource → Request
  operation_request : Text → Request

-- What the client does to its surroundings; a request carries its authorization, if it has one.
pub data ClientEvent : Type 0 where
  token_loaded token_refreshed token_saved slept time_read : ClientEvent
  file_opened : Text → ClientEvent
  sent : Option Text → Request → ClientEvent

-- Each answer may depend on all that happened before, newest first.
pub record ClientWorld : Type 0 where
  pub load_token : List ClientEvent → Result (Option StoredToken) YandexDiskError
  pub refresh_access_token : List ClientEvent → Text → Result StoredToken YandexDiskError
  pub save_token : List ClientEvent → StoredToken → Result (Unit {0}) YandexDiskError
  pub send : List ClientEvent → Option Text → Request → Result Response ReqwestError
  pub open_file : List ClientEvent → Text → Result (Unit {0}) Text
  pub polls_in_time : List ClientEvent → ℕ
  pub absolute_href : Text → Result Text YandexDiskError
  pub status_text : ℕ → Text

pub record RetryPolicy : Type 0 where
  pub attempts : ℕ
  pub delay : ℕ

pub record Client : Type 0 where
  pub retry_policy : RetryPolicy
  pub has_oauth_flow : Bool
  pub account_alias : Text

abbrev pub M : Type 0 → Type 0
M A = Exec (List ClientEvent) YandexDiskError A

-- `RetryPolicy::new`
unfoldable pub new_policy : ℕ → ℕ → RetryPolicy
new_policy attempts delay = record {
  attempts = if ltb attempts 1 then 1 else attempts;
  delay = delay;
}

unfoldable pub should_retry : RetryPolicy → YandexDiskError → ℕ → Bool
should_retry policy error attempt = is_retryable error.kind && ltb attempt policy.attempts

-- `YandexDiskError::new(kind, message)`
unfoldable pub new_error : YandexDiskErrorKind → Text → YandexDiskError
new_error kind message = record { kind = kind; message = message; status = none; api_code = none }

unfoldable pub from_reqwest : ReqwestError → YandexDiskError
from_reqwest error =
    if error.is_timeout || error.is_connect || error.is_request || error.is_body || error.is_decode
    then new_error transient error.message
    else new_error permanent error.message

-- `a.or_else(|| b)`
abbrev pub or_else : Option Text → Option Text → Option Text
or_else (some a) b = some a
or_else none b = b

unfoldable pub best_message : ApiErrorPayload → Option Text
best_message payload = or_else payload.description (or_else payload.message payload.error)

abbrev pub payload_code : Option ApiErrorPayload → Option Text
payload_code none = none
payload_code (some payload) = payload.error

abbrev pub payload_message : Option ApiErrorPayload → Option Text
payload_message none = none
payload_message (some payload) = best_message payload

abbrev pub is_success : ℕ → Bool
is_success status = leb 200 status && ltb status 300

module _ (world : ClientWorld) where
  unfoldable pub from_response : Response → YandexDiskError
  from_response response =
      let message =
        unwrap_or (payload_message response.error_payload)
          (text "Yandex Disk API returned HTTP " ++ world.status_text response.status) in
      let api_code = payload_code response.error_payload in
      record {
        kind = classify_http_status response.status api_code message;
        message = message;
        status = some response.status;
        api_code = api_code;
      }

unfoldable pub response_json_with_context :
    {A : Type 0} → Result A ReqwestError → Text → Result A YandexDiskError
response_json_with_context (ok payload) context = ok payload
response_json_with_context (err e) context =
    let error = from_reqwest e in
    err (
      new_error error.kind
        (error.message ++ (text " while decoding JSON response for " ++ context)))

-- An answer of the surroundings, with the event that it leaves.
unfoldable pub ask :
    {A : Type 0} → ClientEvent → (List ClientEvent → Result A YandexDiskError) → M A
ask event answer events = (answer events, event ∷ events)

-- The outcome as a value, with its error.
unfoldable pub attempt_of : {A : Type 0} → M A → M (Result A YandexDiskError)
attempt_of m events = let (r, later) = m events in (ok r, later)

unfoldable pub lift_result : {A : Type 0} → Result A YandexDiskError → M A
lift_result r events = (r, events)

abbrev pub map_reqwest : Result Response ReqwestError → Result Response YandexDiskError
map_reqwest (ok response) = ok response
map_reqwest (err e) = err (from_reqwest e)
