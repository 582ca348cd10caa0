-- ===== src/Disk/Stored.antt =====
-- What a successful upload has done.
use ya_disk_sync.Base.{
  ℕ, ◌≡◌, refl, ◌∙◌, suc, zero, Bool, true, false, Option, none, List, ◌∷◌, Bool-cases, inl, inr,
  if◌then◌else◌,
}
use ya_disk_sync.Base.Result.{Result, ok, err}
use ya_disk_sync.Base.Text.{Text}
use ya_disk_sync.Base.Exec.{pure, fail, continue, ◌>>=◌, ◌>>◌}
use ya_disk_sync.Disk.{YandexDiskError}
use ya_disk_sync.Disk.Client.{
  Response, Request, upload_put, UploadSource, ClientEvent, sent, ClientWorld, Client, M, ask,
  attempt_of, map_reqwest, is_success, ReqwestError,
}
use ya_disk_sync.Disk.Send.{send, retry_or_fail, by_response}
use ya_disk_sync.Disk.Requests.{
  source_loop, send_upload_source, after_put, upload_loop, upload_inner,
}

module _ {A : Type 0} (Q : List ClientEvent → Type 0) where
  -- Whenever the action succeeds, the history that it leaves has the property.
  record Leaves (m : M A) : Type 0 where
    at : (s t : List ClientEvent) (a : A) → m s ≡ (ok a, t) → Q t

  Leaves-fail : (e : YandexDiskError) → Leaves (fail e)
  unfolding fail
  Leaves-fail e = record { at = λ s t a h. cc }

  Leaves-if : (b : Bool) (m n : M A) → Leaves m → Leaves n → Leaves (if b then m else n)
  Leaves-if true m n h k = h
  Leaves-if false m n h k = k

  Leaves-bind : {B : Type 0} (m : M B) (f : B → M A) → ((b : B) → Leaves (f b)) → Leaves (m >>= f)
  unfolding ◌>>=◌ continue
  Leaves-bind {B} m f k = record { at = λ s t a. go (m s).0 (m s).1 t a }
    where
      go :
          (r : Result B YandexDiskError) (u t : List ClientEvent) (a : A)
          → continue r f u ≡ (ok a, t)
          → Q t
      go (ok b) u t a h = (k b).at u t a h
      go (err e) u t a h = cc

  Leaves-then : {B : Type 0} (m : M B) (n : M A) → Leaves n → Leaves (m >> n)
  unfolding ◌>>◌
  Leaves-then m n k = Leaves-bind m (λ _. n) (λ b. k)

-- The last request was the given one, and its answer is a success.
pub record IsAnswered (world : ClientWorld) (authorization : Option Text) (request : Request)
    (t : List ClientEvent) : Type 0 where
  pub before : List ClientEvent
  pub last : t ≡ sent authorization request ∷ before
  pub response : Response
  pub answer : world.send before authorization request ≡ ok response
  pub success : is_success response.status ≡ true

-- The last request put the content of the source to some link, and its answer is a success.
abbrev pub IsStored : ClientWorld → UploadSource → List ClientEvent → Type 0
IsStored world source t = (href : Text) × IsAnswered world none (upload_put href source) t

module _ (world : ClientWorld) (client : Client) where
  Leaves-retry :
      {A : Type 0} (Q : List ClientEvent → Type 0) (attempt : ℕ) (error : YandexDiskError)
      (again : M A)
      → Leaves Q again
      → Leaves Q (retry_or_fail world client attempt error again)
  unfolding retry_or_fail
  Leaves-retry Q attempt error again k =
      Leaves-if Q _ _ _ (Leaves-then Q _ again k) (Leaves-fail Q error)

  -- A request that is not repeated, and then what its answer says.
  Leaves-sent :
      (authorization : Option Text) (request : Request) (attempt : ℕ) (again : M Response)
      → Leaves (IsAnswered world authorization request) again
      → Leaves (IsAnswered world authorization request) (
          send world client authorization request >>= λ response.
          by_response world client attempt response again)
  unfolding ◌>>=◌ continue send ask by_response pure
  Leaves-sent authorization request attempt again k = record {
    at = λ s t a. go s t a (world.send s authorization request) refl;
  }
    where
      go :
          (s t : List ClientEvent) (a : Response) (o : Result Response ReqwestError)
          → world.send s authorization request ≡ o
          → by_response world client attempt (map_reqwest o) again (sent authorization request ∷ s)
            ≡ (ok a, t)
          → IsAnswered world authorization request t
      go s t a (err e) w h = (Leaves-retry _ attempt _ again k).at _ t a h
      go s t a (ok response) w h = elim (Bool-cases (is_success response.status)) [
        | inl c ↦ record { before = s; last = cc; response = response; answer = w; success = c }
        | inr c ↦ (Leaves-retry _ attempt _ again k).at _ t a (rw c at h)
      ]

  Leaves-source :
      (upload_url : Text) (source : UploadSource) (left attempt : ℕ)
      → Leaves
          (IsAnswered world none (upload_put upload_url source))
          (source_loop world client upload_url source left attempt)
  unfolding source_loop
  Leaves-source upload_url source zero attempt = Leaves-fail _ _
  Leaves-source upload_url source (suc left) attempt = Leaves-then _ _ _ (
      Leaves-sent none (upload_put upload_url source) attempt _
        (Leaves-source upload_url source left (suc attempt)))

  Leaves-put :
      (remote_path : Text) (source : UploadSource) (attempt : ℕ) (href : Text)
      (again : M (Unit {0}))
      → Leaves (IsStored world source) again
      → Leaves (IsStored world source) (
          attempt_of (send_upload_source world client href source) >>= λ outcome.
          after_put world client remote_path attempt outcome again)
  unfolding ◌>>=◌ continue attempt_of after_put send_upload_source pure
  Leaves-put remote_path source attempt href again k = record {
    at = λ s t a. go s t a (send_upload_source world client href source s) refl;
  }
    where
      stays :
          (error : YandexDiskError)
          → Leaves
              (IsStored world source)
              (after_put world client remote_path attempt (err error) again)
      stays error =
          Leaves-if _ _ _ _ (Leaves-fail _ _)
            (Leaves-if _ _ _ _ (Leaves-then _ _ again k) (Leaves-fail _ error))

      go :
          (s t : List ClientEvent) (a : Unit {0})
          (o : Result Response YandexDiskError × List ClientEvent)
          → send_upload_source world client href source s ≡ o
          → after_put world client remote_path attempt o.0 again o.1 ≡ (ok a, t)
          → IsStored world source t
      go s t a (ok response, u) w h = (
        href,
        (Leaves-source href source client.retry_policy.attempts 1).at s t response (w ∙ cc),
      )
      go s t a (err error, u) w h = (stays error).at u t a h

  Leaves-upload :
      (remote_path : Text) (source : UploadSource) (overwrite : Bool) (left attempt : ℕ)
      (had_conflict : Bool)
      → Leaves
          (IsStored world source)
          (upload_loop world client remote_path source overwrite left attempt had_conflict)
  unfolding upload_loop
  Leaves-upload remote_path source overwrite zero attempt had_conflict =
      Leaves-if _ had_conflict _ _ (Leaves-fail _ _) (Leaves-fail _ _)
  Leaves-upload remote_path source overwrite (suc left) attempt had_conflict =
      Leaves-bind _ _ _ (λ href.
        Leaves-put remote_path source attempt href _
          (Leaves-upload remote_path source overwrite left (suc attempt) true))

-- Whenever an upload succeeds, the last thing it has done is to send the content of the source to
-- some upload link, and the answer to just that request was a success.
pub upload_inner-IsStored :
    (world : ClientWorld) (client : Client) (remote_path : Text) (source : UploadSource)
    (overwrite : Bool) (s t : List ClientEvent) (a : Unit {0})
    → upload_inner world client remote_path source overwrite s ≡ (ok a, t)
    → IsStored world source t
unfolding upload_inner
upload_inner-IsStored world client remote_path source overwrite s t a =
    (Leaves-upload world client remote_path source overwrite client.retry_policy.attempts 1
        false).at
      s t a
