-- ===== src/Disk/Send.antt =====
-- crates/yds-yandex-disk/src/lib.rs: sending a request, with its attempts.
use ya_disk_sync.Base.{
  ℕ, suc, zero, Bool, true, false, ◌&&◌, not, Option, none, some, ◌++◌, nat_eq, is_some_and,
  if◌then◌else◌,
}
use ya_disk_sync.Base.Result.{Result, ok, err}
use ya_disk_sync.Base.Text.{Text, text}
use ya_disk_sync.Disk.{YandexDiskError, transient, auth_unavailable}
use ya_disk_sync.Base.Exec.{pure, fail, ◌>>=◌, ◌>>◌}
use ya_disk_sync.Disk.Client.{
  Client, ClientWorld, M, Request, ReqwestError, Response, StoredToken, ask, from_response,
  is_success, map_reqwest, new_error, response_json_with_context, sent, should_retry, slept,
  token_loaded, token_refreshed, token_saved,
}

module _ (world : ClientWorld) (client : Client) where
  -- `make_request(...).send().await.map_err(YandexDiskError::from_reqwest)`, with its error as a
  -- value.
  unfoldable pub send : Option Text → Request → M (Result Response YandexDiskError)
  send authorization request =
      ask (sent authorization request)
        (λ events. ok (map_reqwest (world.send events authorization request)))

  unfoldable pub required : Option StoredToken → M StoredToken
  required (some token) = pure token
  required none = fail (
      new_error auth_unavailable
        (text "Yandex Disk account '" ++ (client.account_alias ++ text "' is not authenticated")))

  unfoldable pub load_required_token : M StoredToken
  load_required_token = ask token_loaded world.load_token >>= required

  unfoldable pub refresh_with : Option Text → M (Unit {0})
  refresh_with none =
      fail (new_error auth_unavailable (text "stored token does not contain refresh_token"))
  refresh_with (some refresh_token) = do
    refreshed ← ask token_refreshed (λ events. world.refresh_access_token events refresh_token)
    ask token_saved (λ events. world.save_token events refreshed)

  unfoldable pub refresh_stored_token : StoredToken → M (Unit {0})
  refresh_stored_token current =
      if client.has_oauth_flow
      then refresh_with current.refresh_token
      else fail (new_error auth_unavailable (text "cannot refresh token without OAuth flow"))

  unfoldable pub sleep_before_retry : M (Unit {0})
  sleep_before_retry =
      if nat_eq client.retry_policy.delay 0 then pure tt else ask slept (λ events. ok tt)

  -- The end of an attempt that met an error: another attempt, or the error.
  unfoldable pub retry_or_fail : {A : Type 0} → ℕ → YandexDiskError → M A → M A
  retry_or_fail attempt error again =
      if should_retry client.retry_policy error attempt
      then sleep_before_retry >> again
      else fail error

  unfoldable pub by_response : ℕ → Result Response YandexDiskError → M Response → M Response
  by_response attempt (err error) again = retry_or_fail attempt error again
  by_response attempt (ok response) again =
      if is_success response.status
      then pure response
      else retry_or_fail attempt (from_response world response) again

  -- Whether an answer is a first 401 for which the token can be refreshed.
  unfoldable pub may_refresh : Bool → StoredToken → Result Response YandexDiskError → Bool
  may_refresh refreshed token (err error) = false
  may_refresh refreshed token (ok response) =
      nat_eq response.status 401
      && (not refreshed && (is_some_and token.refresh_token (λ _. true) && client.has_oauth_flow))

  abbrev pub authorization_of : StoredToken → Option Text
  authorization_of token = some (text "OAuth " ++ token.access_token)

  -- The loop over the attempts: how many are left, the number of the next one, and whether the
  -- token has been refreshed.
  unfoldable pub authorized_loop : Request → ℕ → ℕ → Bool → M Response
  authorized_loop request zero attempt refreshed =
      fail (new_error transient (text "request retry attempts were exhausted"))
  authorized_loop request (suc left) attempt refreshed = do
    token ← load_required_token
    response ← send (authorization_of token) request
    (if may_refresh refreshed token response
        then refresh_stored_token token >> authorized_loop request left (suc attempt) true
        else by_response attempt response (authorized_loop request left (suc attempt) refreshed))

  unfoldable pub send_authorized : Request → M Response
  send_authorized request = authorized_loop request client.retry_policy.attempts 1 false

  unfoldable pub by_payload : {A : Type 0} → ℕ → Result A YandexDiskError → M A → M A
  by_payload attempt (ok payload) again = pure payload
  by_payload attempt (err error) again = retry_or_fail attempt error again

  -- `payload` reads the body of an answer in the form that the caller expects.
  unfoldable pub json_outcome :
      {A : Type 0}
      → (Response → Result A ReqwestError)
      → Text
      → Result Response YandexDiskError
      → Result A YandexDiskError
  json_outcome payload context (err error) = err error
  json_outcome payload context (ok response) =
      if is_success response.status
      then response_json_with_context (payload response) context
      else err (from_response world response)

  unfoldable pub json_loop :
      {A : Type 0} → (Response → Result A ReqwestError) → Text → Request → ℕ → ℕ → Bool → M A
  json_loop payload context request zero attempt refreshed =
      fail (new_error transient (text "JSON request retry attempts were exhausted: " ++ context))
  json_loop payload context request (suc left) attempt refreshed = do
    token ← load_required_token
    response ← send (authorization_of token) request
    (if may_refresh refreshed token response
        then refresh_stored_token token >> json_loop payload context request left (suc attempt) true
        else by_payload attempt (json_outcome payload context response)
            (json_loop payload context request left (suc attempt) refreshed))

  unfoldable pub send_authorized_json :
      {A : Type 0} → (Response → Result A ReqwestError) → Text → Request → M A
  send_authorized_json payload context request =
      json_loop payload context request client.retry_policy.attempts 1 false
