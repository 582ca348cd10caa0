-- ===== src/Sync/Engine/Requests/Uploads.antt =====
-- What the upload phase asks of the remote side.
use ya_disk_sync.Base.{ℕ, zero, suc, Bool, List, [], ◌∷◌}
use ya_disk_sync.Base.Result.{Result, ok, err}
use ya_disk_sync.Base.Text.{Text}
use ya_disk_sync.Scanner.{LocalFileEntry}
use ya_disk_sync.State.{SyncRunSummary}
use ya_disk_sync.Sync.Batch.{Upload}
use ya_disk_sync.Sync.Plan.{Platform, SyncPlanOperation}
use ya_disk_sync.Sync.Engine.World.{Event, remote_upload, Environment, M}
use ya_disk_sync.Sync.Engine.Emits.{Emits, Emits-option, emits_rules}
use ya_disk_sync.Sync.Engine.Tasks.{Emits-join_all}
use ya_disk_sync.Sync.Engine.Directories.{RootState}
use ya_disk_sync.Sync.Engine.Requests.{IsQuiet, persist-Emits, register-Emits}
use ya_disk_sync.Sync.Engine.Uploads.{
  UploadTaskFailure, UploadTask, UploadState, upload_task, start_upload, start_uploads,
  record_upload, record_upload_skipped, record_upload_failed, record_upload_failure, after_upload,
  upload_outcome, run_uploads, upload_round, upload_rounds, apply_uploads,
}

module _ {P : Event → Type 0} (quiet : (e : Event) → IsQuiet e → P e) (env : Environment)
    (run_id : ℕ) (base_summary : SyncRunSummary) (platform : Platform)
    (uploads : (f : LocalFileEntry) → P (remote_upload f)) where
  task-Emits : (f : LocalFileEntry) → Emits P (upload_task env run_id base_summary platform f)
  unfolding upload_task
  task-Emits f = search emits_rules depth 12

  start-Emits : (u : Upload) → Emits P (start_upload env run_id base_summary platform u)
  unfolding start_upload
  start-Emits (f, update) = search (emits_rules, quiet, uploads) depth 12

  starts-Emits :
      (batch : List Upload) (s : RootState)
      → Emits P (start_uploads env run_id base_summary platform batch s)
  unfolding start_uploads
  starts-Emits [] s = search emits_rules
  starts-Emits ((f, update) ∷ batch) s =
      search
        (
          emits_rules,
          quiet,
          register-Emits quiet env run_id base_summary,
          start-Emits,
          starts-Emits batch,
        )
        depth 14

  done-Emits :
      (task : UploadTask) (s : UploadState)
      → Emits P (record_upload env run_id base_summary platform task s)
  unfolding record_upload
  done-Emits ((f, update), id) (s, bytes) =
      search (emits_rules, quiet, persist-Emits quiet env run_id base_summary) depth 16

  skipped-Emits :
      (reason : Text) (failure : UploadTaskFailure) (task : UploadTask) (s : UploadState)
      → Emits P (record_upload_skipped env run_id base_summary platform reason failure task s)
  unfolding record_upload_skipped
  skipped-Emits reason failure ((f, update), id) (s, bytes) =
      search (emits_rules, quiet, persist-Emits quiet env run_id base_summary) depth 16

  failed-Emits :
      (failure : UploadTaskFailure) (task : UploadTask) (s : UploadState)
      → Emits P (record_upload_failed env run_id base_summary platform failure task s)
  unfolding record_upload_failed
  failed-Emits failure ((f, update), id) (s, bytes) =
      search (emits_rules, quiet, persist-Emits quiet env run_id base_summary) depth 16

  failure-Emits :
      (failure : UploadTaskFailure) (task : UploadTask) (s : UploadState)
      → Emits P (record_upload_failure env run_id base_summary platform failure task s)
  unfolding record_upload_failure
  failure-Emits failure task s =
      Emits-option failure.skip_reason_code _ _ (failed-Emits failure task s)
        (λ reason. skipped-Emits reason failure task s)

  after-Emits :
      (task : UploadTask) (s : UploadState) (r : Result (Unit {0}) UploadTaskFailure)
      → Emits P (after_upload env run_id base_summary platform task s r)
  unfolding after_upload
  after-Emits task s (ok u) = search done-Emits
  after-Emits task s (err failure) =
      search (emits_rules, quiet, register-Emits quiet env run_id base_summary, failure-Emits) depth
        14

  outcome-Emits :
      (task : UploadTask) (s : UploadState)
      → Emits P (upload_outcome env run_id base_summary platform task s)
  unfolding upload_outcome
  outcome-Emits task s = search (emits_rules, task-Emits, after-Emits)

  batch-Emits :
      (batch : List Upload) (s : UploadState)
      → Emits P (run_uploads env run_id base_summary platform batch s)
  unfolding run_uploads
  batch-Emits batch (s, bytes) =
      search (emits_rules, quiet, starts-Emits, Emits-join_all, outcome-Emits) depth 12

  round-Emits :
      (concurrency threshold : ℕ) (batch : List Upload)
      (next : UploadState → M (Bool × UploadState)) (s : UploadState)
      → ((t : UploadState) → Emits P (next t))
      → Emits P (upload_round env run_id base_summary platform concurrency threshold batch next s)
  unfolding upload_round
  round-Emits concurrency threshold [] next s h = search emits_rules
  round-Emits concurrency threshold (u ∷ batch) next s h =
      search (emits_rules, batch-Emits) depth 12

  rounds-Emits :
      (concurrency threshold n : ℕ) (pending : List Upload) (s : UploadState)
      → Emits P (upload_rounds env run_id base_summary platform concurrency threshold n pending s)
  unfolding upload_rounds
  rounds-Emits concurrency threshold zero pending s = search emits_rules
  rounds-Emits concurrency threshold (suc n) [] s = search emits_rules
  rounds-Emits concurrency threshold (suc n) (u ∷ pending) s =
      search (emits_rules, quiet, round-Emits, rounds-Emits concurrency threshold n) depth 12

  pub Emits-apply_uploads :
      (concurrency threshold : ℕ) (plan : List SyncPlanOperation) (s : RootState)
      → Emits P (apply_uploads env run_id base_summary platform concurrency threshold plan s)
  unfolding apply_uploads
  Emits-apply_uploads concurrency threshold plan s = search (emits_rules, rounds-Emits)
