-- ===== src/Sync/Engine/Finish.antt =====
-- The end of a root.
use ya_disk_sync.Base.{
  ◌≡◌, sym, ap, ◌∙◌, ◌↔◌, inl, inr, true, false, Option, List, ◌∷◌, arith, Bool-cases,
}
use ya_disk_sync.Base.Result.{Result, ok, err}
use ya_disk_sync.Base.Words.{is_positive_i64}
use ya_disk_sync.Base.Text.{Text}
use ya_disk_sync.Core.Config.{SyncRootConfig}
use ya_disk_sync.Sync.Summary.{
  RootStatus, root_succeeded, root_partial_failed, root_failed, root_cancelled, RootSyncSummary,
  is_failed,
}
use ya_disk_sync.Base.Exec.{pure, continue, ◌>>=◌, ◌>>◌}
use ya_disk_sync.Sync.Engine.World.{
  SyncError, Event, repository_call, cancellation_read, RepositoryCall, update_sync_root_status,
  Environment, or_state_error, call, is_cancelled,
}
use ya_disk_sync.Sync.Engine.Roots.{finish_as, finish_root_cancelled_or_failed}

value_of : {A : Type 0} → A → Result A SyncError × List Event → A
value_of d (ok a, s) = a
value_of d (err e, s) = d

-- A call and a value: the value comes back only after the call, which is the last event.
pub call-pure :
    {A : Type 0} (env : Environment) (c : RepositoryCall) (a t : A) (events later : List Event)
    → (call env c >> pure a) events ≡ (ok t, later)
    → (t ≡ a) × (later ≡ repository_call c ∷ events)
unfolding call pure ◌>>◌ ◌>>=◌ continue or_state_error value_of
call-pure {A} env c a t events later h = go (env.repository events c) h
  where
    go :
        (r : Result (Unit {0}) Text)
        → continue {S = List Event} {E = SyncError} {B = A}
            (or_state_error r)
            (λ _. pure a)
            (repository_call c ∷ events)
          ≡ (ok t, later)
        → (t ≡ a) × (later ≡ repository_call c ∷ events)
    go (ok u) k =
        (sym (ap (value_of a) k), sym (ap (λ (z : Result A SyncError × List Event). z.1) k))
    go (err e) k = let f = ap (λ (z : Result A SyncError × List Event). z.0) k in cc

-- What a root ends with: the last call has recorded the status.
abbrev pub IsRecorded : SyncRootConfig → RootSyncSummary → List Event → List Event → Type 0
IsRecorded root t events later =
    (e : Option Text) × (later
      ≡ repository_call (update_sync_root_status root.id t.status e) ∷ cancellation_read ∷ events)

recorded :
    (root : SyncRootConfig) (t : RootSyncSummary) (events later : List Event) (status : RootStatus)
    (e : Option Text)
    → t.status ≡ status
    → later
      ≡ repository_call (update_sync_root_status root.id status e) ∷ cancellation_read ∷ events
    → IsRecorded root t events later
recorded root t events later status e st last = (
  e,
  last
      ∙ ap
          (λ (z : RootStatus).
            repository_call (update_sync_root_status root.id z e) ∷ cancellation_read ∷ events)
          (sym st),
)

is_failed_inv : (s : RootStatus) → is_failed s ≡ true → s ≡ root_failed
is_failed_inv s h = ground arith

-- Whenever the end of a root returns a summary, the last call has recorded the status of just that
-- summary in the database, right after the one question for a cancellation; and the status is
-- success exactly if the run is not cancelled, the root has not failed and no item of it has.
pub finish_root_cancelled_or_failed-IsRecorded :
    (env : Environment) (root : SyncRootConfig) (s t : RootSyncSummary) (events later : List Event)
    → finish_root_cancelled_or_failed env root s events ≡ (ok t, later)
    → IsRecorded root t events later
      × ((t.status ≡ root_succeeded) ↔ (
          (env.cancelled events ≡ false)
          × (is_failed s.status ≡ false)
          × (is_positive_i64 s.failed_files ≡ false)))
unfolding finish_root_cancelled_or_failed is_cancelled ◌>>=◌ continue finish_as
finish_root_cancelled_or_failed-IsRecorded env root s t events later h =
    elim (Bool-cases (env.cancelled events)) [
      | inl c ↦
          let (same, last) = call-pure env _ _ t (cancellation_read ∷ events) later (rw c at h) in
          let st : t.status ≡ root_cancelled = ap (λ (z : RootSyncSummary). z.status) same in
          (recorded root t events later _ _ st last, ground arith)
      | inr c ↦ elim (Bool-cases (is_failed s.status)) [
        | inl f ↦
            let (same, last) =
              call-pure env _ _ t (cancellation_read ∷ events) later (rw (c, f) at h) in
            let st : t.status ≡ root_failed =
              ap (λ (z : RootSyncSummary). z.status) same ∙ is_failed_inv s.status f in
            (recorded root t events later _ _ st last, ground arith)
        | inr f ↦ elim (Bool-cases (is_positive_i64 s.failed_files)) [
          | inl p ↦
              let (same, last) =
                call-pure env _ _ t (cancellation_read ∷ events) later (rw (c, f, p) at h) in
              let st : t.status ≡ root_partial_failed =
                ap (λ (z : RootSyncSummary). z.status) same in
              (recorded root t events later _ _ st last, ground arith)
          | inr p ↦
              let (same, last) =
                call-pure env _ _ t (cancellation_read ∷ events) later (rw (c, f, p) at h) in
              let st : t.status ≡ root_succeeded = ap (λ (z : RootSyncSummary). z.status) same in
              (recorded root t events later _ _ st last, ground arith)
        ]
      ]
    ]
