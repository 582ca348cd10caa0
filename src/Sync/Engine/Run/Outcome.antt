-- ===== src/Sync/Engine/Run/Outcome.antt =====
-- What the status of a run says about its roots.
use mathlib.Core.Path.{subst}
use ya_disk_sync.Base.{
  ℕ, ◌≡◌, ◌≢◌, refl, ap, sym, ◌∙◌, ◌<◌, ◌^◌, ◌↔◌, Bool, true, false, Option, none, some, List, [],
  ◌∷◌, All, if◌then◌else◌,
}
use ya_disk_sync.Base.Result.{Result, ok, err}
use ya_disk_sync.Base.Words.{add_i64}
use ya_disk_sync.Base.Text.{Text}
use ya_disk_sync.Core.Config.{AppConfig, SyncRootConfig}
use ya_disk_sync.Disk.{YandexDiskError}
use ya_disk_sync.State.{SyncRunStatus}
use ya_disk_sync.Sync.Plan.{Platform}
use ya_disk_sync.Sync.Summary.{
  RootSyncSummary, status_from_summary, empty_summary, add_root_summary,
}
use ya_disk_sync.Sync.Summary.Status.{
  sum_roots, total_failed, IsClean, status_from_summary_iff, failed-sum_roots-snoc,
}
use ya_disk_sync.Sync.Engine.World.{SyncError, Event, Environment, M}
use ya_disk_sync.Sync.Engine.Returns.{
  OnOk, Returns, Returns-pure, Returns-fail, Returns-if, Returns-bind, Returns-then,
  Returns-bind_with,
}
use ya_disk_sync.Sync.Engine.Execution.{RootExecution}
use ya_disk_sync.Sync.Engine.Run.{
  SyncRunReport, RunOutcome, RootRun, missing_root, executed, with_error, push_root, push_execution,
  disk_outcome, available_remote_bytes, after_root, run_roots, execute_run,
}
use ya_disk_sync.Sync.Engine.Run.Once.{
  SyncRunOptions, or_cancelled, failed_report, new_report, conclude, close_run, run_locked,
  run_with_lock,
}

-- A property of the report that the run may add to.
pub record IsKept (Q : SyncRunReport → Type 0) : Type 0 where
  pub by_error : (message : Text) (r : SyncRunReport) → Q r → Q (with_error message r)
  pub by_root : (s : RootSyncSummary) (r : SyncRunReport) → Q r → Q (push_root s r)

module _ (env : Environment) (platform : Platform) (config : AppConfig) (Q : SyncRunReport → Type 0)
    (kept : IsKept Q) where
  pub push_execution-Keeps : (x : RootExecution) (r : SyncRunReport) → Q r → Q (push_execution x r)
  unfolding push_execution
  push_execution-Keeps x r q = go x.run_error
    where
      go :
          (o : Option Text)
          → Q (elim o [
            | none ↦ push_root x.root_summary r
            | some message ↦ push_root x.root_summary (with_error message r)
          ])
      go none = kept.by_root x.root_summary r q
      go (some message) = kept.by_root x.root_summary _ (kept.by_error message r q)

  pub after_root-Keeps :
      (report : SyncRunReport) (available : Option ℕ)
      (next : Option ℕ → SyncRunReport → M RunOutcome) (o : Result RootRun SyncError)
      → Q report
      → ((a : Option ℕ) (r : SyncRunReport) → Q r → Returns (λ (z : RunOutcome). Q z.1) (next a r))
      → Returns (λ (z : RunOutcome). Q z.1) (after_root env platform config report available next o)
  unfolding after_root
  after_root-Keeps report available next (err e) q k = Returns-pure _ q
  after_root-Keeps report available next (ok (missing_root s)) q k = k _ _ (kept.by_root s report q)
  after_root-Keeps report available next (ok (executed x)) q k =
      let pushed = push_execution-Keeps x report q in
      Returns-bind _ _ (λ stopped. Returns-if stopped _ _ (Returns-pure _ pushed) (k _ _ pushed))

  pub run_roots-Keeps :
      (force : Bool) (roots : List SyncRootConfig) (available : Option ℕ) (report : SyncRunReport)
      → Q report
      → Returns
          (λ (z : RunOutcome). Q z.1)
          (run_roots env platform config force roots available report)
  unfolding run_roots
  run_roots-Keeps force [] available report q = Returns-pure _ q
  run_roots-Keeps force (root ∷ roots) available report q =
      Returns-if root.enabled _ _
        (Returns-bind _ _ (λ cancelled.
          Returns-if cancelled _ _ (Returns-pure _ (kept.by_error _ report q)) (
            Returns-bind _ _ (λ outcome.
              after_root-Keeps report available _ outcome q (run_roots-Keeps force roots)))))
        (run_roots-Keeps force roots available report q)

  execute_run-Keeps :
      (force : Bool) (report : SyncRunReport)
      → Q report
      → Returns (λ (z : RunOutcome). Q z.1) (execute_run env platform config force report)
  unfolding execute_run available_remote_bytes disk_outcome
  execute_run-Keeps force report q =
      Returns-bind_with {R = λ (z : Option ℕ × SyncRunReport). Q z.1} _ _
        (Returns-bind _ _ (λ answer. Returns-pure _ (disk answer)))
        (λ start k. run_roots-Keeps force config.roots start.0 start.1 k)
    where
      disk :
          (answer : Result (Option ℕ × Option ℕ) YandexDiskError)
          → Q (disk_outcome env platform config report answer).1
      disk (ok quota) = q
      disk (err e) = kept.by_error _ report q

-- The failed items of the report are those of its roots.
abbrev IsSummed : SyncRunReport → Type 0
IsSummed r = r.summary.failed_files ≡ (sum_roots empty_summary r.roots).failed_files

IsSummed-IsKept : IsKept IsSummed
unfolding with_error push_root add_root_summary
IsSummed-IsKept = record {
  by_error = λ message r q. q;
  by_root = λ s r q.
      ap (λ n. add_i64 n s.failed_files) q ∙ sym (failed-sum_roots-snoc empty_summary r.roots s);
}

-- The status of the report against its roots.
abbrev TellsStatus : SyncRunReport → Type 0
TellsStatus r =
    total_failed r.roots < 2 ^ 63
    → (r.status ≡ SyncRunStatus.succeeded) ↔ (
        All IsClean r.roots
        × (r.status ≢ SyncRunStatus.cancelled)
        × (r.status ≢ SyncRunStatus.failed))

module _ (env : Environment) (platform : Platform) (config : AppConfig) where
  conclude-Tells :
      (o : RunOutcome) → IsSummed o.1 → Returns TellsStatus (conclude env platform config o)
  unfolding conclude failed_report or_cancelled with_error
  conclude-Tells (err e, report) q =
      Returns-pure _ (λ h. (λ s. absurd (failed_is_no_success s), λ x. absurd (x.2 refl)))
    where
      failed_is_no_success : SyncRunStatus.failed ≡ SyncRunStatus.succeeded → ⊥
      failed_is_no_success s = cc
  conclude-Tells (ok u, report) q =
      Returns-bind _ _ (λ cancelled. Returns-pure _ (settled cancelled))
    where
      cancelled_is_no_success : SyncRunStatus.cancelled ≡ SyncRunStatus.succeeded → ⊥
      cancelled_is_no_success s = cc

      settled :
          (cancelled : Bool)
          → TellsStatus (
              if cancelled
              then record (or_cancelled report) { status = SyncRunStatus.cancelled }
              else record report { status = status_from_summary report.summary report.roots })
      settled true h = (λ s. absurd (cancelled_is_no_success s), λ x. absurd (x.1 refl))
      settled false h =
          let (sound, complete) = status_from_summary_iff report.summary report.roots q h in
          (λ s. (sound s, λ c. cc, λ f. cc), λ x. complete x.0)

  close_run-Returns :
      {Q : SyncRunReport → Type 0} (owner : Text) (report : SyncRunReport)
      → Q report
      → Returns Q (close_run env platform config owner report)
  unfolding close_run
  close_run-Returns owner report q = Returns-bind _ _ (λ finished.
      Returns-bind _ _ (λ released. Returns-then _ _ (Returns-then _ _ (Returns-pure _ q))))

  run_with_lock-Tells :
      (options : SyncRunOptions) → Returns TellsStatus (run_with_lock env platform config options)
  unfolding run_with_lock run_locked new_report sum_roots
  run_with_lock-Tells options = Returns-bind _ _ (λ acquired.
      Returns-if acquired _ _
        (Returns-then _ _ (
          Returns-bind _ _ (λ run_id.
            Returns-bind_with _ _
              (execute_run-Keeps env platform config IsSummed IsSummed-IsKept _ (new_report run_id)
                refl)
              (λ o q.
                Returns-bind_with _ _ (conclude-Tells o q)
                  (λ report t. close_run-Returns options.lock_owner report t)))))
        (Returns-fail _))

-- With fewer than 2 ^ 63 failures of its roots in all, a run that gets the lock and returns a report
-- ends as succeeded exactly if each root of the report is neither failed, skipped nor partly failed
-- and counts no failed item, and the run ends neither as cancelled nor as failed.
pub run_with_lock-succeeded :
    (env : Environment) (platform : Platform) (config : AppConfig) (options : SyncRunOptions)
    (events later : List Event) (report : SyncRunReport)
    → run_with_lock env platform config options events ≡ (ok report, later)
    → total_failed report.roots < 2 ^ 63
    → (report.status ≡ SyncRunStatus.succeeded) ↔ (
        All IsClean report.roots
        × (report.status ≢ SyncRunStatus.cancelled)
        × (report.status ≢ SyncRunStatus.failed))
run_with_lock-succeeded env platform config options events later report e h =
    subst (λ (z : Result SyncRunReport SyncError × List Event). OnOk TellsStatus z.0) e
      ((run_with_lock-Tells env platform config options).at events) h
