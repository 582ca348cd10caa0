-- ===== src/Disk/Recovery.antt =====
-- Outages that the attempts outlast, and one that they do not.
use ya_disk_sync.Base.{
  ℕ, ◌+◌, ◌<◌, ◌≤◌, ◌≡◌, refl, suc, zero, Bool, true, false, Option, some, List, [], ◌∷◌, arith,
  Bool-cases, ◌⊎◌, inl, inr, nat_eq, ltb, if◌then◌else◌,
}
use ya_disk_sync.Base.Result.{Result, ok, err}
use ya_disk_sync.Base.Text.{Text, text}
use ya_disk_sync.Base.Exec.{pure, fail, continue, ◌>>=◌, ◌>>◌}
use ya_disk_sync.Disk.{YandexDiskError, is_retryable, transient}
use ya_disk_sync.Disk.Classify.{classify_http_status_kinds}
use ya_disk_sync.Disk.Client.{
  Response, ReqwestError, StoredToken, Request, ClientEvent, sent, token_loaded, slept, ClientWorld,
  Client, M, ask, from_response, from_reqwest, map_reqwest, should_retry, is_success, new_error,
  token_refreshed, token_saved,
}
use ya_disk_sync.Disk.Send.{
  send, required, load_required_token, refresh_stored_token, refresh_with, sleep_before_retry,
  retry_or_fail, by_response, may_refresh, authorized_loop, send_authorized, authorization_of,
}

-- The number of requests in a history, without those that renew the token.
unfoldable pub requests : List ClientEvent → ℕ
requests [] = 0
requests (sent authorization request ∷ events) = suc (requests events)
requests (_ ∷ events) = requests events

-- An answer after which it is worth to try again: a timeout or a lost connection, or a status
-- that tells so.
abbrev pub IsBusy : ClientWorld → Result Response ReqwestError → Type 0
IsBusy world (err e) = is_retryable (from_reqwest e).kind ≡ true
IsBusy world (ok response) = is_retryable (from_response world response).kind ≡ true

-- The service is busy until the given number of requests has been made, and then gives the answer.
pub record IsBackAfter (world : ClientWorld) (token : StoredToken) (request : Request) (n : ℕ)
    (response : Response) : Type 0 where
  pub tokens : (s : List ClientEvent) → world.load_token s ≡ ok (some token)
  pub busy :
      (s : List ClientEvent) (authorization : Option Text)
      → requests s < n
      → IsBusy world (world.send s authorization request)
  pub back :
      (s : List ClientEvent) (authorization : Option Text)
      → requests s ≡ n
      → world.send s authorization request ≡ ok response
  pub success : is_success response.status ≡ true

retryable_status :
    (world : ClientWorld) (r : Response)
    → is_retryable (from_response world r).kind ≡ true
    → (is_success r.status ≡ false) × (nat_eq r.status 401 ≡ false)
unfolding from_response
retryable_status world r h =
    let (_, kinds) = (classify_http_status_kinds r.status _ _).1.0 h in
    (ground (arith, kinds), ground (arith, kinds))

module _ (world : ClientWorld) (client : Client) where
  -- After the sleep the history has the same requests.
  after_sleep :
      (P : Result Response YandexDiskError × List ClientEvent → Type 0) (again : M Response)
      (s : List ClientEvent)
      → ((t : List ClientEvent) → requests t ≡ requests s → P (again t))
      → P ((sleep_before_retry world client >> again) s)
  unfolding ◌>>◌ ◌>>=◌ continue sleep_before_retry ask pure requests
  after_sleep P again s h = elim (Bool-cases (nat_eq client.retry_policy.delay 0)) [
    | inl c ↦ rw c (h s refl)
    | inr c ↦ rw c (h (slept ∷ s) refl)
  ]

  -- The outcome of an attempt that found the service busy.
  after_busy :
      (P : Result Response YandexDiskError × List ClientEvent → Type 0) (token : StoredToken)
      (refreshed : Bool) (attempt : ℕ) (o : Result Response ReqwestError)
      (renewed again : M Response) (s : List ClientEvent)
      → IsBusy world o
      → attempt < client.retry_policy.attempts
      → ((t : List ClientEvent) → requests t ≡ requests s → P (again t))
      → P (
          (if may_refresh world client refreshed token (map_reqwest o)
              then renewed
              else by_response world client attempt (map_reqwest o) again)
            s)
  unfolding may_refresh by_response retry_or_fail should_retry
  after_busy P token refreshed attempt (err e) renewed again s b l h =
      rw (b, more) (after_sleep P again s h)
    where
      more : ltb attempt client.retry_policy.attempts ≡ true
      more = ground (arith, l)
  after_busy P token refreshed attempt (ok r) renewed again s b l h =
      rw ((retryable_status world r b).1, (retryable_status world r b).0, b, more)
        (after_sleep P again s h)
    where
      more : ltb attempt client.retry_policy.attempts ≡ true
      more = ground (arith, l)

  module _ (token : StoredToken) (request : Request) (n : ℕ) (response : Response)
      (h : IsBackAfter world token request n response) where
    not_unauthorized : nat_eq response.status 401 ≡ false
    not_unauthorized = ground (arith, h.success)

    loop_recovers :
        (left attempt : ℕ) (refreshed : Bool) (s : List ClientEvent)
        → requests s ≤ n
        → n < requests s + left
        → attempt + left ≡ suc client.retry_policy.attempts
        → (authorized_loop world client request left attempt refreshed s).0 ≡ ok response
    unfolding authorized_loop ◌>>=◌ continue load_required_token ask required send pure requests
        may_refresh by_response
    loop_recovers zero attempt refreshed s l m e = absurd (omega (arith, l, m))
    loop_recovers (suc left) attempt refreshed s l m e =
        rw (h.tokens s) (elim (Nat-cases (requests s) n l) [
          | inl same ↦
              rw (h.back (token_loaded ∷ s) authorization same, not_unauthorized, h.success) refl
          | inr less ↦
              after_busy (λ o. o.0 ≡ ok response) token refreshed attempt
                (world.send (token_loaded ∷ s) authorization request) _
                (authorized_loop world client request left (suc attempt) refreshed)
                (sent authorization request ∷ token_loaded ∷ s)
                (h.busy (token_loaded ∷ s) authorization less) (omega (arith, m, e, less))
                (λ t same.
                  loop_recovers left (suc attempt) refreshed t (omega (arith, same, less))
                    (omega (arith, same, m)) (omega (arith, e)))
        ])
      where
        authorization : Option Text
        authorization = authorization_of world client token

        Nat-cases : (a b : ℕ) → a ≤ b → (a ≡ b) ⊎ (a < b)
        Nat-cases a b g = ground (arith, g)

-- If the token can be read and the service is busy for fewer further requests than there are
-- attempts, an authorized request ends with the answer of the service.
pub send_authorized-recovers :
    (world : ClientWorld) (client : Client) (token : StoredToken) (request : Request) (n : ℕ)
    (response : Response) (s : List ClientEvent)
    → IsBackAfter world token request n response
    → requests s ≤ n
    → n < requests s + client.retry_policy.attempts
    → (send_authorized world client request s).0 ≡ ok response
unfolding send_authorized
send_authorized-recovers world client token request n response s h l m =
    loop_recovers world client token request n response h client.retry_policy.attempts 1 false s l m
      (omega arith)

-- After the given history the token has expired, and it can be renewed.
pub record IsExpired (world : ClientWorld) (client : Client) (token renewed : StoredToken)
    (refresh_token : Text) (request : Request) (response : Response) (s : List ClientEvent)
    : Type 0 where
  pub flow : client.has_oauth_flow ≡ true
  pub stored : world.load_token s ≡ ok (some token)
  pub refreshable : token.refresh_token ≡ some refresh_token
  pub answer :
      world.send (token_loaded ∷ s) (authorization_of world client token) request ≡ ok response
  pub unauthorized : response.status ≡ 401
  pub refreshes : (t : List ClientEvent) → world.refresh_access_token t refresh_token ≡ ok renewed
  pub saves : (t : List ClientEvent) → world.save_token t renewed ≡ ok tt

-- With one attempt, the renewal of an expired token uses that attempt up: the token is renewed and
-- saved, but the request is not sent again, and it ends with the transient error of exhausted
-- attempts.
pub send_authorized-renewed :
    (world : ClientWorld) (client : Client) (token renewed : StoredToken) (refresh_token : Text)
    (request : Request) (response : Response) (s : List ClientEvent)
    → client.retry_policy.attempts ≡ 1
    → IsExpired world client token renewed refresh_token request response s
    → send_authorized world client request s ≡ (
      err (new_error transient (text "request retry attempts were exhausted")),
      token_saved
          ∷ token_refreshed
          ∷ sent (authorization_of world client token) request
          ∷ token_loaded
          ∷ s,
    )
unfolding send_authorized authorized_loop ◌>>=◌ ◌>>◌ continue load_required_token ask required send
    pure may_refresh refresh_stored_token refresh_with fail
send_authorized-renewed world client token renewed refresh_token request response s one h =
    rw (one, h.stored, h.answer, h.unauthorized, h.refreshable, h.flow, h.refreshes _, h.saves _)
      refl
