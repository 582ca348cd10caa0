-- ===== src/Sync/Engine/DeletionErrors.antt =====
-- The deletion phase when single deletions fail.
use mathlib.Core.Path.{subst, sym}
use mathlib.Core.List.{append_assoc}
use ya_disk_sync.Base.{
  All, All-of_In, ℕ, ◌≡◌, refl, ap, ◌∙◌, inl, inr, false, List, [], ◌∷◌, ◌++◌, In, some, none,
  In-append_left, In-append_right, Bool-cases,
}
use ya_disk_sync.Base.Result.{Result, ok, err}
use ya_disk_sync.Base.Text.{Text, text}
use ya_disk_sync.Core.Config.{SyncRootConfig}
use ya_disk_sync.Disk.{
  ResourceType, file_resource, directory_resource, YandexDiskError, is_not_found,
}
use ya_disk_sync.State.{SyncRunSummary, OperationRecord}
use ya_disk_sync.Sync.LivePlan.{LiveScanPlan}
use ya_disk_sync.Sync.Inventory.{Inventory}
use ya_disk_sync.Sync.Deletes.{RemoteDeleteOperation, collect_coalesced_delete_operations}
use ya_disk_sync.Sync.Summary.{RootSyncSummary, is_stop_error}
use ya_disk_sync.Base.Exec.{pure, continue, ◌>>=◌, ◌>>◌}
use ya_disk_sync.Sync.Engine.World.{
  SyncError, Event, remote_delete, repository_call, operation_started, cancellation_read,
  RepositoryCall, Environment, M, call, append_operation_started, is_cancelled, delete_permanently,
}
use ya_disk_sync.Sync.Engine.Roots.{persist_root_progress}
use ya_disk_sync.Sync.Engine.Deletions.{
  Outcome, finish_succeeded, record_delete_failure, mark_resource_deleted, forget_resource,
  after_delete, delete_remote_path, delete_one, delete_loop, apply_deletes,
}

-- The database takes every call, nobody cancels, and no deletion fails with a stop error.
pub record IsCalm (env : Environment) : Type 0 where
  pub takes : (events : List Event) (c : RepositoryCall) → env.repository events c ≡ ok tt
  pub starts :
      (events : List Event) (o : OperationRecord) → (id : ℕ) × (env.operation_id events o ≡ ok id)
  pub runs : (events : List Event) → env.cancelled events ≡ false
  pub goes_on :
      (events : List Event) (path : Text) (e : YandexDiskError)
      → env.delete_permanently events path ≡ err e
      → is_stop_error e.kind ≡ false

-- The action returns a value with the property, and only adds to the history.
record Succeeds {A : Type 0} (Q : A → Type 0) (m : M A) : Type 0 where
  at : (s : List Event) → (a : A) × (new : List Event) × (m s ≡ (ok a, new ++ s)) × Q a

Succeeds-pure : {A : Type 0} (Q : A → Type 0) (a : A) → Q a → Succeeds Q (pure a)
unfolding pure
Succeeds-pure Q a q = record { at = λ s. (a, [], refl, q) }

Succeeds-bind :
    {A B : Type 0} (P : A → Type 0) (Q : B → Type 0) (m : M A) (f : A → M B)
    → Succeeds P m
    → ((a : A) → P a → Succeeds Q (f a))
    → Succeeds Q (m >>= f)
unfolding ◌>>=◌ continue
Succeeds-bind {A} {B} P Q m f km kf = record {
  at = λ s.
      let (a, new, e, p) = km.at s in
      let (b, more, d, q) = (kf a p).at (new ++ s) in
      (
        b,
        more ++ new,
        ap (λ (z : Result A SyncError × List Event). continue z.0 f z.1) e
            ∙ d
            ∙ ap (λ (z : List Event). (ok b, z)) (sym (append_assoc more new s)),
        q,
      );
}

abbrev Any : Unit {0} → Type 0
Any _ = Unit

Succeeds-then :
    {B : Type 0} (Q : B → Type 0) (m : M (Unit {0})) (k : M B)
    → Succeeds Any m
    → Succeeds Q k
    → Succeeds Q (m >> k)
unfolding ◌>>◌
Succeeds-then Q m k km kk = Succeeds-bind Any Q m (λ _. k) km (λ a p. kk)

-- The phase is not told to stop.
abbrev Goes : Outcome → Type 0
Goes o = o.0 ≡ false

module _ (env : Environment) (calm : IsCalm env) (run_id : ℕ) (root : SyncRootConfig)
    (base_summary : SyncRunSummary) where
  Succeeds-call : (c : RepositoryCall) → Succeeds Any (call env c)
  unfolding call
  Succeeds-call c = record { at = λ s. (tt, repository_call c ∷ [], rw (calm.takes s c), tt) }

  Succeeds-persist :
      (s : RootSyncSummary) → Succeeds Any (persist_root_progress env run_id base_summary s)
  unfolding persist_root_progress
  Succeeds-persist s = Succeeds-call _

  failure-Goes :
      (id : ℕ) (operation : Text) (d : RemoteDeleteOperation) (e : YandexDiskError)
      (s : RootSyncSummary)
      → is_stop_error e.kind ≡ false
      → Succeeds Goes (record_delete_failure env run_id root base_summary id operation d e s)
  unfolding record_delete_failure
  failure-Goes id operation d e s h = rw h (
      Succeeds-then Goes _ _ (Succeeds-call _) (
        Succeeds-then Goes _ _ (Succeeds-call _)
          (Succeeds-then Goes _ _ (Succeeds-persist _) (Succeeds-pure Goes _ refl))))

  mark_goes :
      (d : RemoteDeleteOperation) (t : ResourceType)
      → Succeeds Any (mark_resource_deleted env run_id root base_summary d t)
  unfolding mark_resource_deleted
  mark_goes d file_resource = Succeeds-call _
  mark_goes d directory_resource = Succeeds-call _

  forget_goes :
      (id : ℕ) (d : RemoteDeleteOperation)
      → Succeeds Any (forget_resource env run_id root base_summary id d)
  unfolding forget_resource finish_succeeded
  forget_goes id d =
      Succeeds-then Any _ _ (Succeeds-call _)
        (Succeeds-then Any _ _ (mark_goes d d.resource_type) (Succeeds-call _))

  after_delete-Goes :
      (id : ℕ) (d : RemoteDeleteOperation) (s : RootSyncSummary)
      (r : Result (Unit {0}) YandexDiskError)
      → ((e : YandexDiskError) → r ≡ err e → is_stop_error e.kind ≡ false)
      → Succeeds Goes (after_delete env run_id root base_summary id d s r)
  unfolding after_delete
  after_delete-Goes id d s (ok u) h =
      Succeeds-then Goes _ _ (forget_goes id d)
        (Succeeds-then Goes _ _ (Succeeds-persist _) (Succeeds-pure Goes _ refl))
  after_delete-Goes id d s (err e) h = elim (Bool-cases (is_not_found e.kind)) [
    | inl gone ↦ rw gone (Succeeds-then Goes _ _ (forget_goes id d) (Succeeds-pure Goes _ refl))
    | inr other ↦ rw other (failure-Goes id (text "delete_remote") d e s (h e refl))
  ]

  started : RemoteDeleteOperation → OperationRecord
  started d = record {
    run_id = run_id;
    operation = text "delete_remote";
    local_path = none;
    remote_path = some d.remote_path;
  }

  delete_one_step :
      (d : RemoteDeleteOperation) (s : RootSyncSummary) (events : List Event) (id : ℕ)
      → env.operation_id events (started d) ≡ ok id
      → delete_one env run_id root base_summary false d s events
        ≡ after_delete env run_id root base_summary id d s
            (env.delete_permanently (operation_started (started d) ∷ events) d.remote_path)
            (remote_delete d.remote_path ∷ operation_started (started d) ∷ events)
  unfolding delete_one delete_remote_path append_operation_started delete_permanently ◌>>=◌ started
  delete_one_step d s events id e = rw e

  -- Not from the cache, one round asks for the deletion and goes on.
  delete_one_goes :
      (d : RemoteDeleteOperation) (s : RootSyncSummary) (events : List Event)
      → (o : Outcome) × (new : List Event) × (delete_one env run_id root base_summary false d s
            events
          ≡ (ok o, new ++ events))
        × (o.0 ≡ false)
        × In (remote_delete d.remote_path) new
  delete_one_goes d s events =
      let op = operation_started (started d) in
      let (id, e) = calm.starts events (started d) in
      let (o, new, k, g) =
        (after_delete-Goes id d s (env.delete_permanently (op ∷ events) d.remote_path)
            (calm.goes_on (op ∷ events) d.remote_path)).at
          (remote_delete d.remote_path ∷ op ∷ events) in
      (
        o,
        new ++ (remote_delete d.remote_path ∷ op ∷ []),
        delete_one_step d s events id e
            ∙ k
            ∙ ap (λ (z : List Event). (ok o, z))
                (sym (append_assoc new (remote_delete d.remote_path ∷ op ∷ []) events)),
        g,
        In-append_right (remote_delete d.remote_path) new (remote_delete d.remote_path ∷ op ∷ [])
            (inl refl),
      )

  delete_loop_step :
      (d : RemoteDeleteOperation) (ds : List RemoteDeleteOperation) (s : RootSyncSummary)
      (events mid : List Event) (o : Outcome)
      → delete_one env run_id root base_summary false d s (cancellation_read ∷ events) ≡ (ok o, mid)
      → o.0 ≡ false
      → delete_loop env run_id root base_summary false (d ∷ ds) s events
        ≡ delete_loop env run_id root base_summary false ds o.1 mid
  unfolding delete_loop is_cancelled ◌>>=◌
  delete_loop_step d ds s events mid o e g = rw (calm.runs events) (rw (e, continue) (rw g))

  delete_loop_goes :
      (ds : List RemoteDeleteOperation) (s : RootSyncSummary) (events : List Event)
      → (o : Outcome) × (new : List Event) × (delete_loop env run_id root base_summary false ds s
            events
          ≡ (ok o, new ++ events))
        × (o.0 ≡ false)
        × ((d : RemoteDeleteOperation) → In d ds → In (remote_delete d.remote_path) new)
  unfolding delete_loop pure
  delete_loop_goes [] s events = ((false, s), [], refl, refl, λ d m. absurd m)
  delete_loop_goes (d ∷ ds) s events =
      let (o, new, e, g, i) = delete_one_goes d s (cancellation_read ∷ events) in
      let (p, more, k, h, j) = delete_loop_goes ds o.1 (new ++ (cancellation_read ∷ events)) in
      (
        p,
        more ++ (new ++ (cancellation_read ∷ [])),
        delete_loop_step d ds s events (new ++ (cancellation_read ∷ events)) o e g
            ∙ k
            ∙ ap (λ (z : List Event). (ok p, z)) (regroup more new events),
        h,
        λ c m. elim m [
          | inl same ↦
              In-append_right (remote_delete c.remote_path) more (new ++ (cancellation_read ∷ [])) (
                In-append_left (remote_delete c.remote_path) new (cancellation_read ∷ []) (
                  subst (λ (z : RemoteDeleteOperation). In (remote_delete z.remote_path) new)
                    (sym same) i))
          | inr rest ↦
              In-append_left (remote_delete c.remote_path) more (new ++ (cancellation_read ∷ []))
                (j c rest)
        ],
      )
    where
      regroup :
          (more new events : List Event)
          → more ++ (new ++ (cancellation_read ∷ events))
            ≡ (more ++ (new ++ (cancellation_read ∷ []))) ++ events
      regroup more new events = simp append_assoc

-- The history asks the remote side for the operation's path.
abbrev pub IsAttempted : List Event → RemoteDeleteOperation → Type 0
IsAttempted events d = In (remote_delete d.remote_path) events

-- While the database takes every call, nobody cancels and no deletion fails with a stop error, the
-- deletion phase on a fresh inventory returns without a stop and has asked for every deletion of
-- the plan, whatever other errors single deletions met.
pub apply_deletes_attempts_each :
    (env : Environment) (run_id : ℕ) (root : SyncRootConfig) (base_summary : SyncRunSummary)
    (live_plan : LiveScanPlan) (inventory : Inventory) (summary : RootSyncSummary)
    (events : List Event)
    → IsCalm env
    → (o : Outcome) × (new : List Event) × (apply_deletes env run_id root base_summary live_plan
          inventory false summary events
        ≡ (ok o, new ++ events))
      × (o.0 ≡ false)
      × All (IsAttempted new) (
          collect_coalesced_delete_operations root.id summary.canonical_remote_path live_plan
            inventory)
unfolding apply_deletes
apply_deletes_attempts_each env run_id root base_summary live_plan inventory summary events calm =
    let ops =
      collect_coalesced_delete_operations root.id summary.canonical_remote_path live_plan
        inventory in
    let (o, new, e, g, h) = delete_loop_goes env calm run_id root base_summary ops summary events in
    (o, new, e, g, All-of_In ops h)
