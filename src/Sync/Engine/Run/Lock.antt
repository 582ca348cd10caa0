-- ===== src/Sync/Engine/Run/Lock.antt =====
-- The lock of a run.
use ya_disk_sync.Base.{
  ℕ, ◌≡◌, refl, ◌↔◌, inl, inr, Bool, true, false, ◌||◌, Option, List, [], ◌∷◌, if◌then◌else◌,
}
use ya_disk_sync.Base.Result.{Result, ok, err, Result-cases}
use ya_disk_sync.Base.Text.{Text}
use ya_disk_sync.Core.Config.{AppConfig, SyncRootConfig}
use ya_disk_sync.State.{SyncRunTrigger}
use ya_disk_sync.Sync.Plan.{Platform}
use ya_disk_sync.Base.Exec.{pure, fail, continue, ◌>>=◌, ◌>>◌}
use ya_disk_sync.Sync.Engine.World.{
  SyncError, Event, repository_call, run_started, lock_requested, Environment, M, or_state_error,
  call, attempt, lift, ask, is_cancelled, is_stopped, begin_run, acquire_lock, Question,
  repair_interrupted_runs, finish_run, release_run_lock,
}
use ya_disk_sync.Sync.Engine.Run.{
  SyncRunReport, RunOutcome, RootRun, missing_root, executed, available_remote_bytes, after_root,
  run_roots, execute_run,
}
use ya_disk_sync.Sync.Engine.Run.Once.{
  SyncRunOptions, new_report, conclude, close_run, run_locked, run_with_lock,
}

-- The action returns a value in every world.
record Succeeds {A : Type 0} (m : M A) : Type 0 where
  at : (s : List Event) → (a : A) × ((m s).0 ≡ ok a)

Succeeds-pure : {A : Type 0} (a : A) → Succeeds (pure {E = SyncError} a)
unfolding pure
Succeeds-pure a = record { at = λ s. (a, refl) }

Succeeds-if :
    {A : Type 0} (b : Bool) (m n : M A) → Succeeds m → Succeeds n → Succeeds (if b then m else n)
Succeeds-if true m n km kn = km
Succeeds-if false m n km kn = kn

Succeeds-bind :
    {A B : Type 0} (m : M A) (f : A → M B)
    → Succeeds m
    → ((a : A) → Succeeds (f a))
    → Succeeds (m >>= f)
unfolding ◌>>=◌ continue
Succeeds-bind {A} {B} m f km kf = record {
  at = λ s. let (a, e) = km.at s in let (b, g) = (kf a).at (m s).1 in (b, rw e g);
}

Succeeds-ask : {A : Type 0} (q : Question) (answer : List Event → A) → Succeeds (ask q answer)
unfolding ask
Succeeds-ask q answer = record { at = λ s. (answer s, refl) }

Succeeds-attempt : {A : Type 0} (m : M A) → Succeeds (attempt m)
unfolding attempt
Succeeds-attempt m = record { at = λ s. ((m s).0, refl) }

module _ (env : Environment) where
  Succeeds-is_cancelled : Succeeds (is_cancelled env)
  unfolding is_cancelled
  Succeeds-is_cancelled = record { at = λ s. (env.cancelled s, refl) }

  Succeeds-is_stopped : (b : Bool) → Succeeds (is_stopped env b)
  unfolding is_stopped
  Succeeds-is_stopped b = Succeeds-if b _ _ (Succeeds-pure true) Succeeds-is_cancelled

ruleset succeeds_rules = (
  Succeeds-pure, Succeeds-if, Succeeds-bind, Succeeds-ask, Succeeds-attempt, Succeeds-is_cancelled,
  Succeeds-is_stopped,
)

-- The newest event is the release of the lock, right after the end of the run.
abbrev pub IsReleased : Text → List Event → Type 0
IsReleased owner events =
    (report : SyncRunReport) × (older : List Event) × (events
      ≡ repository_call (release_run_lock owner)
        ∷ repository_call (finish_run report.run_id report.status report.summary)
        ∷ older)

-- What comes after an action that succeeds decides how the history ends.
IsReleased-bind :
    {A B : Type 0} (owner : Text) (m : M A) (f : A → M B)
    → Succeeds m
    → ((a : A) (s : List Event) → IsReleased owner (f a s).1)
    → (s : List Event) → IsReleased owner ((m >>= f) s).1
unfolding ◌>>=◌ continue
IsReleased-bind owner m f km kf s = let (a, e) = km.at s in rw e (kf a (m s).1)

module _ (env : Environment) (platform : Platform) (config : AppConfig) where
  after_root-Succeeds :
      (report : SyncRunReport) (available : Option ℕ)
      (next : Option ℕ → SyncRunReport → M RunOutcome) (r : Result RootRun SyncError)
      → ((a : Option ℕ) (t : SyncRunReport) → Succeeds (next a t))
      → Succeeds (after_root env platform config report available next r)
  unfolding after_root
  after_root-Succeeds report available next (err e) h = search succeeds_rules
  after_root-Succeeds report available next (ok (missing_root s)) h = search succeeds_rules
  after_root-Succeeds report available next (ok (executed x)) h = search succeeds_rules

  run_roots-Succeeds :
      (force : Bool) (roots : List SyncRootConfig) (available : Option ℕ) (report : SyncRunReport)
      → Succeeds (run_roots env platform config force roots available report)
  unfolding run_roots
  run_roots-Succeeds force [] available report = search succeeds_rules
  run_roots-Succeeds force (root ∷ roots) available report =
      search (succeeds_rules, after_root-Succeeds, run_roots-Succeeds force roots) depth 12

  execute_run-Succeeds :
      (force : Bool) (report : SyncRunReport)
      → Succeeds (execute_run env platform config force report)
  unfolding execute_run available_remote_bytes
  execute_run-Succeeds force report = search (succeeds_rules, run_roots-Succeeds) depth 12

  conclude-Succeeds : (o : RunOutcome) → Succeeds (conclude env platform config o)
  unfolding conclude
  conclude-Succeeds (ok u, report) = search succeeds_rules
  conclude-Succeeds (err e, report) = search succeeds_rules

  close_run-IsReleased :
      (owner : Text) (report : SyncRunReport) (s : List Event)
      → IsReleased owner (close_run env platform config owner report s).1
  unfolding close_run attempt call lift ◌>>=◌ ◌>>◌ continue or_state_error pure fail
  close_run-IsReleased owner report s =
      let finished = repository_call (finish_run report.run_id report.status report.summary) ∷ s in
      elim (Result-cases
        (env.repository s (finish_run report.run_id report.status report.summary))) [
          | inl (u, e) ↦ elim (Result-cases (env.repository finished (release_run_lock owner))) [
            | inl (v, f) ↦ (report, s, rw (e, f) refl)
            | inr (v, f) ↦ (report, s, rw (e, f) refl)
          ]
          | inr (u, e) ↦ (report, s, rw e refl)
        ]

  after_begin-IsReleased :
      (options : SyncRunOptions) (id : ℕ) (s : List Event)
      → IsReleased options.lock_owner
          ((execute_run env platform config
                (options.force_remote_rescan || config.sync.force_remote_rescan)
                (new_report id)
              >>= (λ execution.
                  conclude env platform config execution
                  >>= (λ report. close_run env platform config options.lock_owner report)))
            s).1
  after_begin-IsReleased options id s =
      IsReleased-bind options.lock_owner _ _ (execute_run-Succeeds _ (new_report id))
        (λ execution.
          IsReleased-bind options.lock_owner _ _ (conclude-Succeeds execution)
            (λ report. close_run-IsReleased options.lock_owner report))
        s

-- The events of a run up to its start.
abbrev pub with_lock : SyncRunOptions → List Event → List Event
with_lock options events = lock_requested options.lock_owner ∷ events

abbrev pub repaired : SyncRunOptions → List Event → List Event
repaired options events = repository_call repair_interrupted_runs ∷ with_lock options events

-- Once a run has got the lock, the release of the lock is the last thing it does, right after it has
-- recorded the end of the run, whatever goes wrong in between; but it does so exactly if the repair
-- of interrupted runs and the start of the run in the database have succeeded: else the lock stays.
pub run_with_lock-IsReleased :
    (env : Environment) (platform : Platform) (config : AppConfig) (options : SyncRunOptions)
    (events : List Event)
    → env.try_acquire_run_lock events options.lock_owner ≡ ok true
    → IsReleased options.lock_owner (run_with_lock env platform config options events).1 ↔ (
        (env.repository (with_lock options events) repair_interrupted_runs ≡ ok tt)
        × ((id : ℕ) × (env.run_id (repaired options events) options.trigger ≡ ok id)))
unfolding run_with_lock acquire_lock run_locked call begin_run or_state_error ◌>>=◌ ◌>>◌ continue
run_with_lock-IsReleased env platform config options events h =
    rw h (elim (Result-cases (env.repository (with_lock options events) repair_interrupted_runs)) [
      | inr (u, e) ↦
          rw e ((λ released. absurd (not_released released.2)), (λ k. absurd (no_error k.0)))
      | inl (u, e) ↦ elim (Result-cases (env.run_id (repaired options events) options.trigger)) [
        | inr (v, f) ↦
            rw (e, f)
              (
                (λ released. absurd (not_started released.2)),
                (λ k. let (a, b) = k in absurd (no_error b.1)),
              )
        | inl (id, f) ↦
            rw (e, f)
              (
                (λ released. (refl, (id, refl))),
                (λ k. after_begin-IsReleased env platform config options id _),
              )
      ]
    ])
  where
    no_error : {A : Type 0} {x : Text} {a : A} → err x ≡ ok a → ⊥
    no_error h = cc

    not_released :
        {older later : List Event} {owner : Text}
        → repository_call repair_interrupted_runs ∷ older
          ≡ repository_call (release_run_lock owner) ∷ later
        → ⊥
    not_released h = cc

    not_started :
        {older later : List Event} {owner : Text} {trigger : SyncRunTrigger}
        → run_started trigger ∷ older ≡ repository_call (release_run_lock owner) ∷ later
        → ⊥
    not_started h = cc
