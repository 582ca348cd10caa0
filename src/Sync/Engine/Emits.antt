-- ===== src/Sync/Engine/Emits.antt =====
-- What an action adds to the history of calls, one rule for each way to build an action.
use mathlib.Core.List.{append_assoc}
use ya_disk_sync.Base.{
  ◌≡◌, refl, ap, sym, ◌∙◌, Bool, true, false, Option, none, some, List, [], ◌∷◌, ◌++◌,
  if◌then◌else◌, All,
}
use ya_disk_sync.Base.Result.{Result, ok, err}
use ya_disk_sync.Base.Text.{Text}
use ya_disk_sync.State.{OperationRecord, SyncRunTrigger}
use ya_disk_sync.Scanner.{LocalPath}
use ya_disk_sync.Base.Exec.{pure, fail, continue, ◌>>=◌, ◌>>◌}
use ya_disk_sync.Sync.Engine.World.{
  SyncError, Event, repository_call, operation_started, cancellation_read, metadata_read,
  remote_delete, RepositoryCall, Environment, M, call, append_operation_started, is_cancelled,
  is_stopped, read_metadata, delete_permanently, Question, question, about_local_files,
  staging_removed, run_started, lock_requested, ask, outcome_of, request, lift, attempt, begin_run,
  acquire_lock, local_files, remove_staging,
}

-- The action only adds events with the property in front of the history.
pub record Emits (P : Event → Type 0) {A : Type 0} (m : M A) : Type 0 where
  pub at : (s : List Event) → (new : List Event) × ((m s).1 ≡ new ++ s) × All P new

module _ (P : Event → Type 0) where
  All-append : (xs ys : List Event) → All P xs → All P ys → All P (xs ++ ys)
  All-append [] ys h k = k
  All-append (x ∷ xs) ys h k = (h.0, All-append xs ys h.1 k)

module _ {P Q : Event → Type 0} (weaken : (e : Event) → P e → Q e) where
  All-weaken : (es : List Event) → All P es → All Q es
  All-weaken [] h = tt
  All-weaken (e ∷ es) h = (weaken e h.0, All-weaken es h.1)

  pub Emits-weaken : {A : Type 0} (m : M A) → Emits P m → Emits Q m
  Emits-weaken m k = record { at = λ s. let (new, e, h) = k.at s in (new, e, All-weaken new h) }

module _ {P : Event → Type 0} where
  -- An action after some events.
  pub Emits-after :
      {B : Type 0} {n : M B}
      → Emits P n
      → (t s new : List Event) → t ≡ new ++ s
      → All P new
      → (all : List Event) × ((n t).1 ≡ all ++ s) × All P all
  Emits-after k t s new e h =
      let (more, d, g) = k.at t in
      (
        more ++ new,
        d ∙ ap (λ (z : List Event). more ++ z) e ∙ sym (append_assoc more new s),
        All-append P more new g h,
      )

  pub Emits-pure : {A : Type 0} (a : A) → Emits P (pure {E = SyncError} a)
  unfolding pure
  Emits-pure a = record { at = λ s. ([], refl, tt) }

  pub Emits-if :
      {A : Type 0} (b : Bool) (m n : M A) → Emits P m → Emits P n → Emits P (if b then m else n)
  Emits-if true m n km kn = km
  Emits-if false m n km kn = kn

  -- Each branch may rely on the test.
  pub Emits-if_known :
      {A : Type 0} (b : Bool) (m n : M A)
      → (b ≡ true → Emits P m)
      → (b ≡ false → Emits P n)
      → Emits P (if b then m else n)
  Emits-if_known true m n km kn = km refl
  Emits-if_known false m n km kn = kn refl

  pub Emits-option :
      {A X : Type 0} (o : Option X) (m : M A) (f : X → M A)
      → Emits P m
      → ((x : X) → Emits P (f x))
      → Emits P (elim o [ none ↦ m | some x ↦ f x ])
  Emits-option none m f km kf = km
  Emits-option (some x) m f km kf = kf x

  pub Emits-bind :
      {A B : Type 0} (m : M A) (f : A → M B)
      → Emits P m
      → ((a : A) → Emits P (f a))
      → Emits P (m >>= f)
  unfolding ◌>>=◌
  Emits-bind {A} {B} m f km kf = record {
    at = λ s. let (new, e, h) = km.at s in go (m s).0 (m s).1 s new e h;
  }
    where
      go :
          (r : Result A SyncError) (t s new : List Event)
          → t ≡ new ++ s
          → All P new
          → (all : List Event) × ((continue r f t).1 ≡ all ++ s) × All P all
      go (err x) t s new e h = (new, e, h)
      go (ok a) t s new e h = Emits-after (kf a) t s new e h

  pub Emits-then : {A B : Type 0} (m : M A) (k : M B) → Emits P m → Emits P k → Emits P (m >> k)
  unfolding ◌>>◌
  Emits-then m k km kk = Emits-bind m (λ _. k) km (λ _. kk)

  module _ (env : Environment) where
    pub Emits-call : (c : RepositoryCall) → P (repository_call c) → Emits P (call env c)
    unfolding call
    Emits-call c h = record { at = λ s. (repository_call c ∷ [], refl, (h, tt)) }

    pub Emits-append_operation_started :
        (o : OperationRecord) → P (operation_started o) → Emits P (append_operation_started env o)
    unfolding append_operation_started
    Emits-append_operation_started o h = record {
      at = λ s. (operation_started o ∷ [], refl, (h, tt));
    }

    pub Emits-is_cancelled : P cancellation_read → Emits P (is_cancelled env)
    unfolding is_cancelled
    Emits-is_cancelled h = record { at = λ s. (cancellation_read ∷ [], refl, (h, tt)) }

    pub Emits-is_stopped : (b : Bool) → P cancellation_read → Emits P (is_stopped env b)
    unfolding is_stopped
    Emits-is_stopped b h = Emits-if b _ _ (Emits-pure true) (Emits-is_cancelled h)

    pub Emits-read_metadata :
        (path : Text) → P (metadata_read path) → Emits P (read_metadata env path)
    unfolding read_metadata
    Emits-read_metadata path h = record { at = λ s. (metadata_read path ∷ [], refl, (h, tt)) }

    pub Emits-delete_permanently :
        (path : Text) → P (remote_delete path) → Emits P (delete_permanently env path)
    unfolding delete_permanently
    Emits-delete_permanently path h = record { at = λ s. (remote_delete path ∷ [], refl, (h, tt)) }

  pub Emits-ask :
      {A : Type 0} (q : Question) (answer : List Event → A)
      → P (question q)
      → Emits P (ask q answer)
  unfolding ask
  Emits-ask q answer h = record { at = λ s. (question q ∷ [], refl, (h, tt)) }

  pub Emits-outcome_of : {A : Type 0} (answer : List Event → A) → Emits P (outcome_of answer)
  unfolding outcome_of
  Emits-outcome_of answer = record { at = λ s. ([], refl, tt) }

  pub Emits-request : (e : Event) → P e → Emits P (request e)
  unfolding request
  Emits-request e h = record { at = λ s. (e ∷ [], refl, (h, tt)) }

  pub Emits-fail : {A : Type 0} (e : SyncError) → Emits P (fail {A = A} e)
  unfolding fail
  Emits-fail e = record { at = λ s. ([], refl, tt) }

  pub Emits-lift : {A : Type 0} (r : Result A SyncError) → Emits P (lift r)
  unfolding lift
  Emits-lift (ok a) = Emits-pure a
  Emits-lift (err e) = Emits-fail e

  pub Emits-attempt : {A : Type 0} (m : M A) → Emits P m → Emits P (attempt m)
  unfolding attempt
  Emits-attempt m km = record { at = km.at }

  module _ (env : Environment) where
    pub Emits-begin_run : (t : SyncRunTrigger) → P (run_started t) → Emits P (begin_run env t)
    unfolding begin_run
    Emits-begin_run t h = record { at = λ s. (run_started t ∷ [], refl, (h, tt)) }

    pub Emits-acquire_lock :
        (owner : Text) → P (lock_requested owner) → Emits P (acquire_lock env owner)
    unfolding acquire_lock
    Emits-acquire_lock owner h = record { at = λ s. (lock_requested owner ∷ [], refl, (h, tt)) }

    pub Emits-local_files : P (question about_local_files) → Emits P (local_files env)
    unfolding local_files
    Emits-local_files h = Emits-ask about_local_files env.files h

    pub Emits-remove_staging :
        (path : LocalPath) → P (staging_removed path) → Emits P (remove_staging env path)
    unfolding remove_staging
    Emits-remove_staging path h = record { at = λ s. (staging_removed path ∷ [], refl, (h, tt)) }

pub ruleset emits_rules = (
  Emits-pure, Emits-if, Emits-bind, Emits-then, Emits-call, Emits-append_operation_started,
  Emits-is_cancelled, Emits-is_stopped, Emits-read_metadata, Emits-delete_permanently, Emits-ask,
  Emits-outcome_of, Emits-request, Emits-fail, Emits-lift, Emits-attempt, Emits-begin_run,
  Emits-acquire_lock, Emits-local_files, Emits-remove_staging,
)
