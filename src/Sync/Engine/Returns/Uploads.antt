-- ===== src/Sync/Engine/Returns/Uploads.antt =====
-- The upload phase of a root and the canonical remote path in its summary.
use ya_disk_sync.Base.{ℕ, zero, suc, Bool, true, false, List, [], ◌∷◌}
use ya_disk_sync.Base.Result.{Result, ok, err}
use ya_disk_sync.Base.Text.{Text}
use ya_disk_sync.State.{SyncRunSummary}
use ya_disk_sync.Sync.Batch.{Upload}
use ya_disk_sync.Sync.Plan.{Platform, SyncPlanOperation, uploads}
use ya_disk_sync.Base.Exec.{pure}
use ya_disk_sync.Sync.Engine.World.{Environment, M}
use ya_disk_sync.Sync.Engine.Directories.{RootState}
use ya_disk_sync.Sync.Engine.Returns.{
  Returns, returns_rules, Returns-bind_with, Returns-bind, Returns-if, Returns-option, Returns-pure,
}
use ya_disk_sync.Sync.Engine.Returns.Canonical.{At, register-Keeps, join_all-Keeps}
use ya_disk_sync.Sync.Engine.Uploads.{
  UploadPhaseResult, UploadTaskFailure, UploadTask, UploadState, start_uploads, record_upload,
  record_upload_skipped, record_upload_failed, record_upload_failure, after_upload, upload_outcome,
  run_uploads, upload_round, upload_rounds, apply_uploads,
}

module _ (c : Text) (env : Environment) (run_id : ℕ) (base_summary : SyncRunSummary)
    (platform : Platform) where
  abbrev StaysAt : UploadState → Type 0
  StaysAt s = At c s.0.root_summary

  abbrev Keeps : M (Bool × UploadState) → Type 0
  Keeps m = Returns (λ (r : Bool × UploadState). StaysAt r.1) m

  starts-Keeps :
      (batch : List Upload) (s : RootState)
      → At c s.root_summary
      → Returns
          (λ (r : List UploadTask × RootState). At c r.1.root_summary)
          (start_uploads env run_id base_summary platform batch s)
  unfolding start_uploads
  starts-Keeps [] s h = search returns_rules
  starts-Keeps ((f, update) ∷ batch) s h = Returns-if _ _ _ (starts-Keeps batch s h) (
      Returns-bind_with _ _
        (register-Keeps c env run_id base_summary (pure tt) f.local_path f.relative_path
          f.remote_path s h)
        (λ found k. Returns-if found.0 _ _ (starts-Keeps batch found.1 k) (
          Returns-bind _ _ (λ task.
            Returns-bind_with _ _ (starts-Keeps batch found.1 k) (λ more l. Returns-pure _ l)))))

  done-Keeps :
      (task : UploadTask) (s : UploadState)
      → StaysAt s
      → Keeps (record_upload env run_id base_summary platform task s)
  unfolding record_upload
  done-Keeps ((f, true), id) (s, bytes) h = search returns_rules depth 16
  done-Keeps ((f, false), id) (s, bytes) h = search returns_rules depth 16

  skipped-Keeps :
      (reason : Text) (failure : UploadTaskFailure) (task : UploadTask) (s : UploadState)
      → StaysAt s
      → Keeps (record_upload_skipped env run_id base_summary platform reason failure task s)
  unfolding record_upload_skipped
  skipped-Keeps reason failure ((f, update), id) (s, bytes) h = search returns_rules depth 16

  failed-Keeps :
      (failure : UploadTaskFailure) (task : UploadTask) (s : UploadState)
      → StaysAt s
      → Keeps (record_upload_failed env run_id base_summary platform failure task s)
  unfolding record_upload_failed
  failed-Keeps failure ((f, update), id) (s, bytes) h = search returns_rules depth 16

  failure-Keeps :
      (failure : UploadTaskFailure) (task : UploadTask) (s : UploadState)
      → StaysAt s
      → Keeps (record_upload_failure env run_id base_summary platform failure task s)
  unfolding record_upload_failure
  failure-Keeps failure task s h =
      Returns-option failure.skip_reason_code _ _ (failed-Keeps failure task s h)
        (λ reason. skipped-Keeps reason failure task s h)

  after-Keeps :
      (task : UploadTask) (s : UploadState) (r : Result (Unit {0}) UploadTaskFailure)
      → StaysAt s
      → Keeps (after_upload env run_id base_summary platform task s r)
  unfolding after_upload
  after-Keeps task s (ok u) h = search done-Keeps
  after-Keeps task s (err failure) h =
      Returns-bind_with _ _ (register-Keeps c env run_id base_summary _ _ _ _ s.0 h) (λ found k.
        Returns-if found.0 _ _ (Returns-pure _ k) (failure-Keeps failure task (found.1, s.1) k))

  outcome-Keeps :
      (task : UploadTask) (s : UploadState)
      → StaysAt s
      → Keeps (upload_outcome env run_id base_summary platform task s)
  unfolding upload_outcome
  outcome-Keeps task s h = search (returns_rules, after-Keeps)

  batch-Keeps :
      (batch : List Upload) (s : UploadState)
      → StaysAt s
      → Keeps (run_uploads env run_id base_summary platform batch s)
  unfolding run_uploads
  batch-Keeps batch (s, bytes) h =
      Returns-bind_with _ _ (starts-Keeps batch s h)
        (λ started k. join_all-Keeps StaysAt env _ outcome-Keeps started.0 (started.1, bytes) k)

  module _ (concurrency threshold : ℕ) where
    round-Keeps :
        (batch : List Upload) (next : UploadState → M (Bool × UploadState)) (s : UploadState)
        → StaysAt s
        → ((t : UploadState) → StaysAt t → Keeps (next t))
        → Keeps (upload_round env run_id base_summary platform concurrency threshold batch next s)
    unfolding upload_round
    round-Keeps [] next s h n = search returns_rules
    round-Keeps (u ∷ batch) next s h n =
        Returns-bind_with _ _ (batch-Keeps (u ∷ batch) s h)
          (λ outcome k. Returns-if outcome.0 _ _ (Returns-pure _ k) (n outcome.1 k))

    rounds-Keeps :
        (n : ℕ) (pending : List Upload) (s : UploadState)
        → StaysAt s
        → Keeps (upload_rounds env run_id base_summary platform concurrency threshold n pending s)
    unfolding upload_rounds
    rounds-Keeps zero pending s h = search returns_rules
    rounds-Keeps (suc n) [] s h = search returns_rules
    rounds-Keeps (suc n) (u ∷ pending) s h = Returns-bind _ _ (λ cancelled.
        Returns-if cancelled _ _ (Returns-pure _ h) (round-Keeps _ _ s h (rounds-Keeps n _)))

  pub apply_uploads-Keeps :
      (concurrency threshold : ℕ) (plan : List SyncPlanOperation) (s : RootState)
      → At c s.root_summary
      → Returns
          (λ (r : UploadPhaseResult × RootState). At c r.1.root_summary)
          (apply_uploads env run_id base_summary platform concurrency threshold plan s)
  unfolding apply_uploads
  apply_uploads-Keeps concurrency threshold plan s h =
      Returns-bind_with _ _ (rounds-Keeps _ threshold _ (uploads plan) (s, 0) h)
        (λ r k. Returns-pure _ k)
