-- ===== src/Examples/Client.antt =====
-- The client at concrete answers: a success, an outage of two requests, an expired token.
use ya_disk_sync.Base.{
  suc, ℕ, ◌+◌, ◌*◌, ◌<◌, ◌≤◌, ◌≡◌, refl, true, false, Option, none, some, List, [], ◌∷◌, arith, ltb,
  if◌then◌else◌,
}
use ya_disk_sync.Base.Result.{Result, ok, err}
use ya_disk_sync.Base.Text.{Text, text}
use ya_disk_sync.Base.Exec.{pure, continue, ◌>>=◌, ◌>>◌}
use ya_disk_sync.Disk.{is_retryable, transient}
use ya_disk_sync.Disk.Client.{
  Response, ReqwestError, StoredToken, Request, create_directory_request, upload_put,
  upload_link_request, UploadSource, source_file, ClientEvent, sent, token_loaded, token_refreshed,
  token_saved, file_opened, ClientWorld, Client, ask, attempt_of, response_json_with_context,
  from_reqwest, new_error,
}
use ya_disk_sync.Disk.Send.{
  send, required, load_required_token, may_refresh, by_response, by_payload, json_outcome,
  json_loop, send_authorized, send_authorized_json, authorization_of,
}
use ya_disk_sync.Disk.Requests.{
  upload_request, source_loop, send_upload_source, after_put, upload_loop, upload_inner,
}
use ya_disk_sync.Disk.Attempts.{exchanges, upload_inner-bounded}
use ya_disk_sync.Disk.Stored.{IsStored, upload_inner-IsStored}
use ya_disk_sync.Disk.Recovery.{
  requests, IsBackAfter, IsExpired, send_authorized-recovers, send_authorized-renewed,
}

abbrev token : StoredToken
token = record { access_token = b'a' ∷ []; refresh_token = some (b'r' ∷ []) }

abbrev renewed : StoredToken
renewed = record { access_token = b'b' ∷ []; refresh_token = some (b'r' ∷ []) }

abbrev answer : ℕ → Response
answer status = record {
  status = status;
  error_payload = none;
  link = ok (b'u' ∷ []);
  operation_status = ok (text "success");
}

abbrev lost : ReqwestError
lost = record {
  is_timeout = true;
  is_connect = false;
  is_request = false;
  is_body = false;
  is_decode = false;
  message = [];
}

-- The token is there, and every request gets the given answer.
abbrev world_with :
    (List ClientEvent → Option Text → Request → Result Response ReqwestError) → ClientWorld
world_with answers = record {
  load_token = λ s. ok (some token);
  refresh_access_token = λ s r. ok renewed;
  save_token = λ s t. ok tt;
  send = answers;
  open_file = λ s p. ok tt;
  polls_in_time = λ s. 0;
  absolute_href = λ h. ok h;
  status_text = λ n. [];
}

abbrev client : ℕ → Client
client attempts = record {
  retry_policy = record { attempts = attempts; delay = 0 };
  has_oauth_flow = true;
  account_alias = [];
}

abbrev in_service : ClientWorld
in_service = world_with (λ s a r. ok (answer 201))

abbrev path : Text
path = b'p' ∷ []

abbrev source : UploadSource
source = source_file (b'f' ∷ [])

abbrev stored : List ClientEvent
stored =
    sent none (upload_put (b'u' ∷ []) source)
    ∷ file_opened (b'f' ∷ [])
    ∷ sent (some (text "OAuth a")) (upload_link_request path true)
    ∷ token_loaded
    ∷ []

uploads : upload_inner in_service (client 3) path source true [] ≡ (ok tt, stored)
unfolding upload_inner upload_loop send_authorized_json json_loop ◌>>=◌ ◌>>◌ continue
    load_required_token ask required send pure may_refresh by_payload json_outcome
    response_json_with_context attempt_of send_upload_source source_loop upload_request by_response
    after_put text
uploads = refl

upload_inner-IsStored_example : IsStored in_service source stored
upload_inner-IsStored_example =
    upload_inner-IsStored in_service (client 3) path source true [] stored tt uploads

upload_inner-bounded_example :
    exchanges (upload_inner in_service (client 3) path source true []).1
    ≤ exchanges []
      + (client 3).retry_policy.attempts
        * ((client 3).retry_policy.attempts + suc (client 3).retry_policy.attempts)
upload_inner-bounded_example = upload_inner-bounded in_service (client 3) path source true []

-- The first two requests are lost.
abbrev outage : ClientWorld
outage = world_with (λ s a r. if ltb (requests s) 2 then err lost else ok (answer 201))

create : Request
create = create_directory_request path

outage-IsBackAfter : IsBackAfter outage token create 2 (answer 201)
unfolding from_reqwest new_error is_retryable
outage-IsBackAfter = record {
  tokens = λ s. refl;
  busy = λ s a h. rw (less s h) refl;
  back = λ s a h. rw h refl;
  success = refl;
}
  where
    less : (s : List ClientEvent) → requests s < 2 → ltb (requests s) 2 ≡ true
    less s h = ground (arith, h)

send_authorized-recovers_example : (send_authorized outage (client 3) create []).0 ≡ ok (answer 201)
unfolding requests
send_authorized-recovers_example =
    send_authorized-recovers outage (client 3) token create 2 (answer 201) [] outage-IsBackAfter
      starts within
  where
    starts : requests [] ≤ 2
    starts = ground arith

    within : 2 < requests [] + 3
    within = ground arith

-- Every request is answered with 401.
abbrev expired : ClientWorld
expired = world_with (λ s a r. ok (answer 401))

expired-IsExpired : IsExpired expired (client 1) token renewed (b'r' ∷ []) create (answer 401) []
expired-IsExpired = record {
  flow = refl;
  stored = refl;
  refreshable = refl;
  answer = refl;
  unauthorized = refl;
  refreshes = λ t. refl;
  saves = λ t. refl;
}

send_authorized-renewed_example : send_authorized expired (client 1) create [] ≡ (
  err (new_error transient (text "request retry attempts were exhausted")),
  token_saved
      ∷ token_refreshed
      ∷ sent (authorization_of expired (client 1) token) create
      ∷ token_loaded
      ∷ [],
)
send_authorized-renewed_example =
    send_authorized-renewed expired (client 1) token renewed (b'r' ∷ []) create (answer 401) [] refl
      expired-IsExpired
