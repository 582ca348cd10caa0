-- ===== src/Disk/Attempts.antt =====
-- How many requests the client sends.
use ya_disk_sync.Base.{
  ◌&&◌, nat_eq, is_some_and, ℕ, ◌+◌, ◌*◌, ◌≤◌, ◌≡◌, refl, suc, zero, Bool, true, false, Option,
  none, some, List, [], ◌∷◌, arith, if◌then◌else◌,
}
use ya_disk_sync.Base.Result.{Result, ok, err}
use ya_disk_sync.Base.Text.{Text}
use ya_disk_sync.Base.Exec.{pure, fail, continue, ◌>>=◌, ◌>>◌}
use ya_disk_sync.Disk.{YandexDiskError}
use ya_disk_sync.Disk.Client.{
  Response, ReqwestError, StoredToken, Request, UploadSource, source_bytes, source_file,
  ClientEvent, sent, token_loaded, token_refreshed, token_saved, slept, file_opened, ClientWorld,
  Client, M, ask, attempt_of,
}
use ya_disk_sync.Disk.Send.{
  send, required, load_required_token, refresh_with, refresh_stored_token, sleep_before_retry,
  retry_or_fail, by_response, may_refresh, by_payload, json_loop, send_authorized_json,
  json_outcome,
}
use ya_disk_sync.Disk.Requests.{
  upload_request, source_loop, send_upload_source, after_put, upload_loop, upload_inner,
}

-- The number of HTTP requests in a history: those to the service and to the links that it gives, and
-- those that renew the token.
unfoldable pub exchanges : List ClientEvent → ℕ
exchanges [] = 0
exchanges (sent authorization request ∷ events) = suc (exchanges events)
exchanges (token_refreshed ∷ events) = suc (exchanges events)
exchanges (_ ∷ events) = exchanges events

-- The action makes at most the given number of requests.
record Sends (n : ℕ) {A : Type 0} (m : M A) : Type 0 where
  at : (s : List ClientEvent) → exchanges (m s).1 ≤ exchanges s + n

Sends-pure : {A : Type 0} (n : ℕ) (a : A) → Sends n (pure {E = YandexDiskError} a)
unfolding pure
Sends-pure n a = record { at = λ s. omega arith }

Sends-fail : {A : Type 0} (n : ℕ) (e : YandexDiskError) → Sends n (fail {A = A} e)
unfolding fail
Sends-fail n e = record { at = λ s. omega arith }

Sends-bind :
    {A B : Type 0} (m : M A) (f : A → M B) (n k all : ℕ)
    → n + k ≤ all
    → Sends n m
    → ((a : A) → Sends k (f a))
    → Sends all (m >>= f)
unfolding ◌>>=◌ continue
Sends-bind {A} {B} m f n k all le h l = record { at = λ s. go s (m s).0 (m s).1 (h.at s) }
  where
    go :
        (s : List ClientEvent) (r : Result A YandexDiskError) (t : List ClientEvent)
        → exchanges t ≤ exchanges s + n
        → exchanges (continue r f t).1 ≤ exchanges s + all
    go s (ok a) t g = omega (arith, (l a).at t, g, le)
    go s (err e) t g = omega (arith, g, le)

Sends-then : {A B : Type 0} (m : M A) (k : M B) (n : ℕ) → Sends 0 m → Sends n k → Sends n (m >> k)
unfolding ◌>>◌
Sends-then m k n h l = Sends-bind m (λ _. k) 0 n n (omega arith) h (λ a. l)

Sends-if :
    {A : Type 0} (b : Bool) (m k : M A) (n : ℕ)
    → Sends n m
    → Sends n k
    → Sends n (if b then m else k)
Sends-if true m k n h l = h
Sends-if false m k n h l = l

Sends-attempt : {A : Type 0} (m : M A) (n : ℕ) → Sends n m → Sends n (attempt_of m)
unfolding attempt_of
Sends-attempt m n h = record { at = λ s. h.at s }

-- An event that is no request.
Sends-ask :
    {A : Type 0} (event : ClientEvent) (answer : List ClientEvent → Result A YandexDiskError)
    → ((s : List ClientEvent) → exchanges (event ∷ s) ≡ exchanges s)
    → Sends 0 (ask event answer)
unfolding ask
Sends-ask event answer h = record { at = λ s. omega (arith, h s) }

step : (left each : ℕ) → each + 1 + (each + left * (each + suc each)) ≤ suc left * (each + suc each)
step left each = omega arith

Sends-weaken : {A : Type 0} (m : M A) (n k : ℕ) → n ≤ k → Sends n m → Sends k m
Sends-weaken m n k h l = record { at = λ s. omega (arith, l.at s, h) }

-- How often the token may still be renewed.
abbrev renewals : Bool → ℕ
renewals true = 0
renewals false = 1

module _ (world : ClientWorld) (client : Client) where
  Sends-send :
      (authorization : Option Text) (request : Request)
      → Sends 1 (send world client authorization request)
  unfolding send ask exchanges
  Sends-send authorization request = record { at = λ s. omega arith }

  Sends-sleep : Sends 0 (sleep_before_retry world client)
  unfolding sleep_before_retry exchanges
  Sends-sleep = Sends-if _ _ _ 0 (Sends-pure 0 tt) (Sends-ask slept _ (λ s. refl))

  Sends-load : Sends 0 (load_required_token world client)
  unfolding load_required_token exchanges required
  Sends-load = Sends-bind _ _ 0 0 0 (omega arith) (Sends-ask token_loaded _ (λ s. refl)) go
    where
      go : (o : Option StoredToken) → Sends 0 (required world client o)
      go none = Sends-fail 0 _
      go (some token) = Sends-pure 0 token

  Sends-refresh : (token : StoredToken) → Sends 1 (refresh_stored_token world client token)
  unfolding refresh_stored_token exchanges refresh_with ask
  Sends-refresh token = Sends-if _ _ _ 1 (go token.refresh_token) (Sends-fail 1 _)
    where
      go : (o : Option Text) → Sends 1 (refresh_with world client o)
      go none = Sends-fail 1 _
      go (some refresh_token) =
          Sends-bind _ _ 1 0 1 (omega arith) (record { at = λ s. omega arith })
            (λ refreshed. Sends-ask token_saved _ (λ s. refl))

  Sends-retry :
      {A : Type 0} (attempt : ℕ) (error : YandexDiskError) (again : M A) (n : ℕ)
      → Sends n again
      → Sends n (retry_or_fail world client attempt error again)
  unfolding retry_or_fail
  Sends-retry attempt error again n h =
      Sends-if _ _ _ n (Sends-then _ again n Sends-sleep h) (Sends-fail n error)

  Sends-response :
      (attempt : ℕ) (r : Result Response YandexDiskError) (again : M Response) (n : ℕ)
      → Sends n again
      → Sends n (by_response world client attempt r again)
  unfolding by_response
  Sends-response attempt (err error) again n h = Sends-retry attempt error again n h
  Sends-response attempt (ok response) again n h =
      Sends-if _ _ _ n (Sends-pure n response) (Sends-retry attempt _ again n h)

  Sends-payload :
      {A : Type 0} (attempt : ℕ) (r : Result A YandexDiskError) (again : M A) (n : ℕ)
      → Sends n again
      → Sends n (by_payload world client attempt r again)
  unfolding by_payload
  Sends-payload attempt (err error) again n h = Sends-retry attempt error again n h
  Sends-payload attempt (ok a) again n h = Sends-pure n a

  -- The end of an attempt: the token may be renewed if it has not been yet.
  Sends-answer :
      {A : Type 0} (left : ℕ) (refreshed : Bool) (token : StoredToken)
      (response : Result Response YandexDiskError) (renewed again : M A)
      → Sends left renewed
      → Sends (left + renewals refreshed) again
      → Sends (left + renewals refreshed) (
          if may_refresh world client refreshed token response
          then refresh_stored_token world client token >> renewed
          else again)
  unfolding ◌>>◌ may_refresh
  Sends-answer left false token response renewed again h k =
      Sends-if (may_refresh world client false token response) _ _ _
        (Sends-bind _ _ 1 left _ (omega arith) (Sends-refresh token) (λ u. h)) k
  Sends-answer left true token (err e) renewed again h k = k
  Sends-answer left true token (ok response) renewed again h k = rw spent k
    where
      spent :
          nat_eq response.status 401
            && (false
                && (is_some_and token.refresh_token (λ (t : Text). true) && client.has_oauth_flow))
          ≡ false
      spent = ground arith

  Sends-json :
      {A : Type 0} (payload : Response → Result A ReqwestError) (context : Text) (request : Request)
      (left attempt : ℕ) (refreshed : Bool)
      → Sends
          (left + renewals refreshed)
          (json_loop world client payload context request left attempt refreshed)
  unfolding json_loop
  Sends-json payload context request zero attempt refreshed = Sends-fail _ _
  Sends-json payload context request (suc left) attempt refreshed =
      let all = left + renewals refreshed in
      Sends-bind _ _ 0 (suc all) _ (omega arith) Sends-load (λ token.
        Sends-bind _ _ 1 all (suc all) (omega arith) (Sends-send _ request) (λ response.
          Sends-answer left refreshed token response _ _
            (Sends-weaken _ (left + 0) left (omega arith)
              (Sends-json payload context request left (suc attempt) true))
            (Sends-payload attempt (json_outcome world client payload context response) _ all
              (Sends-json payload context request left (suc attempt) refreshed))))

  Sends-source :
      (upload_url : Text) (source : UploadSource) (left attempt : ℕ)
      → Sends left (source_loop world client upload_url source left attempt)
  unfolding source_loop upload_request exchanges ◌>>◌
  Sends-source upload_url source zero attempt = Sends-fail 0 _
  Sends-source upload_url source (suc left) attempt =
      Sends-bind _ _ 0 (suc left) (suc left) (omega arith) (opens source) (λ u.
        Sends-bind _ _ 1 left (suc left) (omega arith) (Sends-send none _) (λ response.
          Sends-response attempt response _ left
            (Sends-source upload_url source left (suc attempt))))
    where
      opens : (source : UploadSource) → Sends 0 (upload_request world client source)
      opens (source_bytes content) = Sends-pure 0 tt
      opens (source_file path) = Sends-ask (file_opened path) _ (λ s. refl)

  Sends-after_put :
      (remote_path : Text) (attempt : ℕ) (outcome : Result Response YandexDiskError)
      (again : M (Unit {0})) (n : ℕ)
      → Sends n again
      → Sends n (after_put world client remote_path attempt outcome again)
  unfolding after_put
  Sends-after_put remote_path attempt (ok response) again n h = Sends-pure n tt
  Sends-after_put remote_path attempt (err error) again n h =
      Sends-if _ _ _ n (Sends-fail n _)
        (Sends-if _ _ _ n (Sends-then _ again n Sends-sleep h) (Sends-fail n error))

  Sends-upload :
      (remote_path : Text) (source : UploadSource) (overwrite : Bool) (left attempt : ℕ)
      (had_conflict : Bool)
      → Sends
          (left * (client.retry_policy.attempts + suc client.retry_policy.attempts))
          (upload_loop world client remote_path source overwrite left attempt had_conflict)
  unfolding upload_loop send_authorized_json send_upload_source
  Sends-upload remote_path source overwrite zero attempt had_conflict =
      Sends-if had_conflict _ _ _ (Sends-fail _ _) (Sends-fail _ _)
  Sends-upload remote_path source overwrite (suc left) attempt had_conflict =
      let each = client.retry_policy.attempts in
      Sends-bind _ _ (each + 1) (each + left * (each + suc each)) _ (step left each)
        (Sends-json _ _ _ each 1 false)
        (λ href.
          Sends-bind _ _ each (left * (each + suc each)) _ (omega arith)
            (Sends-attempt _ each (Sends-source href source each 1))
            (λ outcome.
              Sends-after_put remote_path attempt outcome _ _
                (Sends-upload remote_path source overwrite left (suc attempt) true)))

-- Whatever is answered, with `n` attempts configured an upload makes at most `n * (n + n + 1)` HTTP
-- requests, the renewals of the token among them.
pub upload_inner-bounded :
    (world : ClientWorld) (client : Client) (remote_path : Text) (source : UploadSource)
    (overwrite : Bool) (s : List ClientEvent)
    → exchanges (upload_inner world client remote_path source overwrite s).1
      ≤ exchanges s
        + client.retry_policy.attempts
          * (client.retry_policy.attempts + suc client.retry_policy.attempts)
unfolding upload_inner
upload_inner-bounded world client remote_path source overwrite s =
    (Sends-upload world client remote_path source overwrite client.retry_policy.attempts 1 false).at
      s
