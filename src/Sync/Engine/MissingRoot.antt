-- ===== src/Sync/Engine/MissingRoot.antt =====
-- A root whose local directory is missing, and the status of its run.
use ya_disk_sync.Base.{
  ℕ, ◌≡◌, ◌≢◌, refl, ap, inl, inr, true, false, Bool, Option, List, [], ◌∷◌, In, In-append_left,
  In-append_right, any, any-false, Bool-cases, ◌⊎◌, if◌then◌else◌,
}
use mathlib.Core.Path.{subst}
use ya_disk_sync.Base.Result.{Result, ok, err}
use ya_disk_sync.Base.Exec.{◌>>=◌}
use ya_disk_sync.Core.Config.{AppConfig, SyncRootConfig}
use ya_disk_sync.State.{SyncRunStatus, SyncRunSummary}
use ya_disk_sync.Sync.LivePlan.{FileSystem}
use ya_disk_sync.Sync.Plan.{Platform}
use ya_disk_sync.Sync.Summary.{
  root_skipped, RootSyncSummary, is_failed, is_partial, status_from_summary,
}
use ya_disk_sync.Sync.Engine.World.{
  SyncError, Event, Environment, M, is_cancelled, local_files, ask,
}
use ya_disk_sync.Sync.Engine.Returns.{
  OnOk, Returns, Returns-pure, Returns-bind, Returns-then, Returns-bind_with, Returns-attempt,
}
use ya_disk_sync.Sync.Engine.Roots.{record_missing_root}
use ya_disk_sync.Sync.Engine.Run.{
  SyncRunReport, RunOutcome, RootRun, missing_root, with_error, push_root, run_root, after_root,
  run_roots,
}
use ya_disk_sync.Sync.Engine.Run.Once.{conclude, failed_report, or_cancelled}
use ya_disk_sync.Sync.Engine.Run.Outcome.{IsKept, run_roots-Keeps}

partial_root_status :
    (total : SyncRunSummary) (roots : List RootSyncSummary) (t : RootSyncSummary)
    → In t roots
    → is_partial t.status ≡ true
    → status_from_summary total roots ≢ SyncRunStatus.succeeded
unfolding status_from_summary
partial_root_status total roots t m p h =
    elim (Bool-cases (any (λ (r : RootSyncSummary). is_failed r.status) roots)) [
      | inl f ↦ cc (rw f at h)
      | inr f ↦ elim (Bool-cases (any (λ (r : RootSyncSummary). is_partial r.status) roots)) [
        | inl q ↦ cc (rw (f, q) at h)
        | inr q ↦ let n = any-false (λ (r : RootSyncSummary). is_partial r.status) roots t q m in cc
      ]
    ]

module _ {A : Type 0} {Q : A → Type 0} where
  Returns-when : (b : Bool) (m n : M A) → b ≡ true → Returns Q m → Returns Q (if b then m else n)
  Returns-when true m n e k = k
  Returns-when false m n e k = absurd (false_is_not_true e)
    where
      false_is_not_true : false ≡ true → ⊥
      false_is_not_true e = cc

  Returns-unless : (b : Bool) (m n : M A) → b ≡ false → Returns Q n → Returns Q (if b then m else n)
  Returns-unless false m n e k = k
  Returns-unless true m n e k = absurd (true_is_not_false e)
    where
      true_is_not_false : true ≡ false → ⊥
      true_is_not_false e = cc

-- Some root of the report was skipped.
abbrev HasSkipped : SyncRunReport → Type 0
HasSkipped r = (t : RootSyncSummary) × In t r.roots × (t.status ≡ root_skipped)

HasSkipped-IsKept : IsKept HasSkipped
unfolding with_error push_root
HasSkipped-IsKept = record {
  by_error = λ message r q. q;
  by_root = λ s r (t, m, k). (t, In-append_left t r.roots (s ∷ []) m, k);
}

-- The loop has failed, or some root was skipped.
abbrev IsUnclean : RunOutcome → Type 0
IsUnclean o = ((e : SyncError) × (o.0 ≡ err e)) ⊎ HasSkipped o.1

abbrev IsMissing : RootRun → Type 0
IsMissing x = (t : RootSyncSummary) × (x ≡ missing_root t) × (t.status ≡ root_skipped)

record_missing_root-Returns :
    (env : Environment) (root : SyncRootConfig) (s : RootSyncSummary)
    → Returns (λ (t : RootSyncSummary). t.status ≡ root_skipped) (record_missing_root env root s)
unfolding record_missing_root
record_missing_root-Returns env root s = Returns-then _ _ (Returns-then _ _ (Returns-pure _ refl))

module _ (env : Environment) (platform : Platform) (config : AppConfig) (root : SyncRootConfig)
    (missing : (e : List Event)
      → (env.files e).is_dir (platform.path_from root.local_path) ≡ false) where
  run_root-IsMissing :
      (run_id : ℕ) (force : Bool) (base_summary : SyncRunSummary) (available : Option ℕ)
      → Returns IsMissing (run_root env platform config run_id force base_summary available root)
  unfolding run_root local_files ask
  run_root-IsMissing run_id force base_summary available = Returns-bind _ _ (λ s. Returns-then _ _ (
      Returns-bind_with _ _ answers (λ files h. rw h (
        Returns-bind_with _ _ (record_missing_root-Returns env root s)
          (λ t k. Returns-pure _ (t, refl, k))))))
    where
      answers :
          Returns
            (λ (files : FileSystem). files.is_dir (platform.path_from root.local_path) ≡ false)
            (local_files env)
      answers = record { at = missing }

  after_root-IsUnclean :
      (force : Bool) (roots : List SyncRootConfig) (report : SyncRunReport) (available : Option ℕ)
      (o : Result RootRun SyncError)
      → OnOk IsMissing o
      → Returns IsUnclean (
          after_root env platform config report available
            (run_roots env platform config force roots)
            o)
  unfolding after_root push_root
  after_root-IsUnclean force roots report available (err e) h = Returns-pure _ (inl (e, refl))
  after_root-IsUnclean force roots report available (ok x) (t, same, k) = rw same (record {
    at = λ s.
        skipped ((run_roots env platform config force roots available (push_root t report) s).0) (
          (run_roots-Keeps env platform config HasSkipped HasSkipped-IsKept force roots available
              (push_root t report) (t, In-append_right t report.roots (t ∷ []) (inl refl), k)).at
            s);
  })
    where
      skipped :
          (r : Result RunOutcome SyncError)
          → OnOk (λ (z : RunOutcome). HasSkipped z.1) r
          → OnOk IsUnclean r
      skipped (ok z) q = inr q
      skipped (err e) q = tt

  run_roots-IsUnclean :
      (force : Bool) (roots : List SyncRootConfig) (available : Option ℕ) (report : SyncRunReport)
      → root.enabled ≡ true
      → ((e : List Event) → env.cancelled e ≡ false)
      → Returns IsUnclean (run_roots env platform config force (root ∷ roots) available report)
  unfolding run_roots is_cancelled
  run_roots-IsUnclean force roots available report enabled calm =
      Returns-when root.enabled _ _ enabled (
        Returns-bind_with _ _ not_cancelled (λ cancelled c. Returns-unless cancelled _ _ c (
          Returns-bind_with _ _
            (Returns-attempt _ (run_root-IsMissing report.run_id force report.summary available))
            (λ o h. after_root-IsUnclean force roots report available o h))))
    where
      not_cancelled : Returns (λ c. c ≡ false) (is_cancelled env)
      not_cancelled = record { at = calm }

  conclude-IsUnclean :
      (o : RunOutcome)
      → IsUnclean o
      → Returns
          (λ (r : SyncRunReport). r.status ≢ SyncRunStatus.succeeded)
          (conclude env platform config o)
  unfolding conclude failed_report
  conclude-IsUnclean (err e, report) h = Returns-pure _ (λ s. cc)
  conclude-IsUnclean (ok u, report) (inl (e, same)) = absurd (ok_is_no_err same)
    where
      ok_is_no_err : {e : SyncError} {u : Unit {0}} → ok u ≡ err e → ⊥
      ok_is_no_err s = cc
  conclude-IsUnclean (ok u, report) (inr (t, m, k)) =
      Returns-bind _ _ (λ cancelled. Returns-pure _ (settled cancelled))
    where
      settled :
          (cancelled : Bool)
          → (if cancelled
              then record (or_cancelled report) { status = SyncRunStatus.cancelled }
              else record report {
                status = status_from_summary report.summary report.roots;
              }).status
            ≢ SyncRunStatus.succeeded
      settled true = λ s. cc
      settled false = partial_root_status report.summary report.roots t m (ap is_partial k)

-- Whenever the loop over the roots comes to an enabled root whose local directory is missing, and
-- nobody cancels the run, the run does not end as succeeded, whatever the report holds by then and
-- whatever becomes of the roots that follow.
pub run_roots-missing_root :
    (env : Environment) (platform : Platform) (config : AppConfig) (root : SyncRootConfig)
    (force : Bool) (roots : List SyncRootConfig) (available : Option ℕ)
    (report final : SyncRunReport) (events later : List Event)
    → root.enabled ≡ true
    → ((e : List Event) → (env.files e).is_dir (platform.path_from root.local_path) ≡ false)
    → ((e : List Event) → env.cancelled e ≡ false)
    → (run_roots env platform config force (root ∷ roots) available report
          >>= conclude env platform config)
        events
      ≡ (ok final, later)
    → final.status ≢ SyncRunStatus.succeeded
run_roots-missing_root env platform config root force roots available report final events later
      enabled missing calm e =
    subst
      (λ (z : Result SyncRunReport SyncError × List Event).
        OnOk (λ (r : SyncRunReport). r.status ≢ SyncRunStatus.succeeded) z.0)
      e
      ((Returns-bind_with _ _
          (run_roots-IsUnclean env platform config root missing force roots available report enabled
            calm)
          (conclude-IsUnclean env platform config root missing)).at
        events)
