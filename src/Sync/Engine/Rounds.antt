-- ===== src/Sync/Engine/Rounds.antt =====
-- The loops of the first two phases take at most as many rounds as items are pending.
use ya_disk_sync.Base.{
  ℕ, zero, suc, ◌≤◌, ◌<◌, ◌≡◌, refl, Bool, true, false, List, [], ◌∷◌, length, ltb, arith,
  if◌then◌else◌,
}
use ya_disk_sync.Base.Result.{Result, ok, err}
use ya_disk_sync.Core.Config.{SyncRootConfig}
use ya_disk_sync.Scanner.{LocalDirectoryEntry}
use ya_disk_sync.State.{SyncRunSummary}
use ya_disk_sync.Sync.Batch.{Upload, take_upload_batch_progress}
use ya_disk_sync.Sync.Plan.{Platform}
use ya_disk_sync.Base.Exec.{continue, ◌>>=◌}
use ya_disk_sync.Sync.Engine.World.{SyncError, Event, Environment, M}
use ya_disk_sync.Sync.Engine.Returns.{
  OnOk, Returns, Returns-pure, Returns-if, Returns-any, Returns-bind,
}
use ya_disk_sync.Sync.Engine.Directories.{RootState, fill_batch, create_rounds}
use ya_disk_sync.Sync.Engine.Uploads.{UploadState, upload_round, upload_rounds}

-- Two actions do the same.
abbrev Same : {A : Type 0} → M A → M A → Type 0
Same m n = (events : List Event) → m events ≡ n events

Same-if :
    {A : Type 0} (b : Bool) (k m n : M A)
    → Same m n
    → Same (if b then k else m) (if b then k else n)
Same-if true k m n h events = refl
Same-if false k m n h events = h events

-- Two continuations that do the same on whatever the first action returns.
Same-bind :
    {A B : Type 0} (R : A → Type 0) (m : M A) (f g : A → M B)
    → Returns R m
    → ((a : A) → R a → Same (f a) (g a))
    → Same (m >>= f) (m >>= g)
unfolding ◌>>=◌ continue
Same-bind {A} {B} R m f g k h events = go (m events).0 (m events).1 (k.at events)
  where
    go :
        (r : Result A SyncError) (later : List Event)
        → OnOk R r
        → continue r f later ≡ continue r g later
    go (ok a) later q = h a q later
    go (err e) later q = refl

module _ (env : Environment) (run_id : ℕ) (base_summary : SyncRunSummary)
    (platform : Platform) where
  module _ (concurrency threshold : ℕ) where
    Same-round :
        (batch : List Upload) (next next' : UploadState → M (Bool × UploadState)) (s : UploadState)
        → ((t : UploadState) → Same (next t) (next' t))
        → Same
            (upload_round env run_id base_summary platform concurrency threshold batch next s)
            (upload_round env run_id base_summary platform concurrency threshold batch next' s)
    unfolding upload_round
    Same-round [] next next' s h = λ events. refl
    Same-round (u ∷ batch) next next' s h =
        Same-bind (λ _. Unit) _ _ _ (Returns-any _)
          (λ outcome q. Same-if outcome.0 _ _ _ (h outcome.1))

    Same-upload_rounds :
        (n m : ℕ) (pending : List Upload) (s : UploadState)
        → 0 < concurrency
        → length pending ≤ n
        → length pending ≤ m
        → Same
            (upload_rounds env run_id base_summary platform concurrency threshold n pending s)
            (upload_rounds env run_id base_summary platform concurrency threshold m pending s)
    unfolding upload_rounds
    Same-upload_rounds zero zero pending s c h k = λ events. refl
    Same-upload_rounds zero (suc m) [] s c h k = λ events. refl
    Same-upload_rounds (suc n) zero [] s c h k = λ events. refl
    Same-upload_rounds zero (suc m) (u ∷ pending) s c h k = absurd (omega (arith, h))
    Same-upload_rounds (suc n) zero (u ∷ pending) s c h k = absurd (omega (arith, k))
    Same-upload_rounds (suc n) (suc m) [] s c h k = λ events. refl
    Same-upload_rounds (suc n) (suc m) (u ∷ pending) s c h k =
        let left = (take_upload_batch_progress u pending concurrency threshold c).1 in
        Same-bind (λ _. Unit) _ _ _ (Returns-any _)
          (λ cancelled q. Same-if cancelled _ _ _ (
            Same-round _ _ _ s (λ t.
              Same-upload_rounds n m _ t c (omega (arith, left, h)) (omega (arith, left, k)))))

  -- With room for one upload in a batch, the upload loop with a bound that is at least the number of
  -- pending uploads does what it does with any other such bound: no run of it is cut off.
  pub upload_rounds-enough :
      (concurrency threshold n : ℕ) (pending : List Upload) (s : UploadState) (events : List Event)
      → 0 < concurrency
      → length pending ≤ n
      → upload_rounds env run_id base_summary platform concurrency threshold n pending s events
        ≡ upload_rounds env run_id base_summary platform concurrency threshold
            (length pending)
            pending
            s
            events
  upload_rounds-enough concurrency threshold n pending s events c h =
      Same-upload_rounds concurrency threshold n (length pending) pending s c h (omega arith) events

  abbrev Filled : Type 0
  Filled = (List LocalDirectoryEntry × List LocalDirectoryEntry) × RootState

  module _ (concurrency : ℕ) where
    fill_batch-length :
        (n : ℕ) (pending batch : List LocalDirectoryEntry) (s : RootState)
        → length pending ≤ n
        → Returns
            (λ (r : Filled). length r.0.1 ≤ n)
            (fill_batch env run_id base_summary concurrency pending batch s)
    unfolding fill_batch
    fill_batch-length n [] batch s h = Returns-pure _ (omega arith)
    fill_batch-length n (d ∷ pending) batch s h =
        Returns-if _ _ _
          (Returns-if _ _ _ (fill_batch-length n pending batch s (omega (arith, h)))
            (Returns-bind _ _ (λ found. fill_batch-length n pending _ found.1 (omega (arith, h)))))
          (Returns-pure _ h)

    -- The first directory never stays pending.
    fill_batch-progress :
        (d : LocalDirectoryEntry) (pending : List LocalDirectoryEntry) (s : RootState)
        → 0 < concurrency
        → Returns
            (λ (r : Filled). length r.0.1 ≤ length pending)
            (fill_batch env run_id base_summary concurrency (d ∷ pending) [] s)
    unfolding fill_batch
    fill_batch-progress d pending s c = rw room (
        Returns-if _ _ _ (fill_batch-length (length pending) pending [] s (omega arith)) (
          Returns-bind _ _
            (λ found. fill_batch-length (length pending) pending _ found.1 (omega arith))))
      where
        room : ltb 0 concurrency ≡ true
        room = ground arith

    module _ (root : SyncRootConfig) where
      Same-create_rounds :
          (n m : ℕ) (pending : List LocalDirectoryEntry) (s : RootState)
          → 0 < concurrency
          → length pending ≤ n
          → length pending ≤ m
          → Same
              (create_rounds env run_id base_summary platform root n concurrency pending s)
              (create_rounds env run_id base_summary platform root m concurrency pending s)
      unfolding create_rounds
      Same-create_rounds zero zero pending s c h k = λ events. refl
      Same-create_rounds zero (suc m) [] s c h k = λ events. refl
      Same-create_rounds (suc n) zero [] s c h k = λ events. refl
      Same-create_rounds zero (suc m) (d ∷ pending) s c h k = absurd (omega (arith, h))
      Same-create_rounds (suc n) zero (d ∷ pending) s c h k = absurd (omega (arith, k))
      Same-create_rounds (suc n) (suc m) [] s c h k = λ events. refl
      Same-create_rounds (suc n) (suc m) (d ∷ pending) s c h k =
          Same-bind (λ _. Unit) _ _ _ (Returns-any _)
            (λ cancelled q. Same-if cancelled _ _ _ (
              Same-bind (λ (r : Filled). length r.0.1 ≤ length pending) _ _ _
                (fill_batch-progress d pending s c)
                (λ filled left.
                  Same-bind (λ _. Unit) _ _ _ (Returns-any _)
                    (λ next p. Same-if next.0 _ _ _ (
                      Same-create_rounds n m filled.0.1 next.1 c (omega (arith, left, h))
                        (omega (arith, left, k)))))))

  -- With room for one directory in a batch, the loop over the directories of one depth with a bound
  -- that is at least their number does what it does with any other such bound: no run of it is cut
  -- off.
  pub create_rounds-enough :
      (root : SyncRootConfig) (concurrency n : ℕ) (pending : List LocalDirectoryEntry)
      (s : RootState) (events : List Event)
      → 0 < concurrency
      → length pending ≤ n
      → create_rounds env run_id base_summary platform root n concurrency pending s events
        ≡ create_rounds env run_id base_summary platform root
            (length pending)
            concurrency
            pending
            s
            events
  create_rounds-enough root concurrency n pending s events c h =
      Same-create_rounds concurrency root n (length pending) pending s c h (omega arith) events
