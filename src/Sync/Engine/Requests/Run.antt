-- ===== src/Sync/Engine/Requests/Run.antt =====
-- What a run asks the remote side to delete.
use mathlib.Core.Path.{subst}
use mathlib.Core.List.{append-nil}
use ya_disk_sync.Base.{
  ℕ, ◌≡◌, refl, sym, ◌∙◌, inl, inr, Bool, true, false, ◌≢◌, Option, List, [], ◌∷◌, ◌++◌, In, All,
  if◌then◌else◌,
}
use ya_disk_sync.Base.Exec.{pure, continue, ◌>>=◌, ◌>>◌}
use ya_disk_sync.Base.Result.{Result, ok, err}
use ya_disk_sync.Base.Text.{Text, Below}
use ya_disk_sync.Core.Config.{AppConfig, SyncRootConfig}
use ya_disk_sync.Core.PathMapping.{PathMappingError, canonical_remote_path}
use ya_disk_sync.Core.Validation.{Outside}
use ya_disk_sync.State.{SyncRunSummary}
use ya_disk_sync.Sync.Inventory.{trimmed_root}
use ya_disk_sync.Sync.Plan.{Platform}
use ya_disk_sync.Sync.Summary.{RootSyncSummary}
use ya_disk_sync.Sync.Engine.World.{
  SyncError, Event, repository_call, operation_started, cancellation_read, metadata_read,
  remote_delete, remote_create, remote_upload, staging_removed, run_started, lock_requested,
  question, Environment, M, lift,
}
use ya_disk_sync.Sync.Engine.Emits.{
  Emits, Emits-bind, Emits-if, Emits-if_known, Emits-pure, Emits-attempt, Emits-lift,
  Emits-is_cancelled, Emits-after, emits_rules,
}
use ya_disk_sync.Sync.Engine.Returns.{Returns, Returns-pure, Returns-fail, Emits-bind_with}
use ya_disk_sync.Sync.Engine.Requests.{IsQuiet}
use ya_disk_sync.Sync.Engine.Requests.Around.{missing-Emits}
use ya_disk_sync.Sync.Engine.Requests.Root.{Emits-execute_root}
use ya_disk_sync.Sync.Engine.Run.{
  SyncRunReport, RunOutcome, RootRun, missing_root, executed, root_summary_at, initial_root_summary,
  available_remote_bytes, run_root, after_root, run_roots, execute_run,
}
use ya_disk_sync.Sync.Engine.Run.Once.{
  SyncRunOptions, MigrationRunOptions, MigrationRunReport, sync_report_from_migration,
  has_no_snapshot, should_auto_migrate, must_migrate, conclude, close_run, run_locked,
  run_with_lock, run_once, ensure_valid_config,
}

-- The path lies strictly below the remote path of an enabled root.
abbrev pub IsManaged : AppConfig → Text → Type 0
IsManaged config path =
    (root : SyncRootConfig) × (c : Text) × In root config.roots
    × (root.enabled ≡ true)
    × (canonical_remote_path config.instance_config.remote_root root.local_path
          root.remote_path_override
        ≡ ok c)
    × Below path (trimmed_root c)

abbrev pub DeletesManaged : AppConfig → Event → Type 0
DeletesManaged config (remote_delete path) = IsManaged config path
DeletesManaged config (remote_create path) = Unit
DeletesManaged config (remote_upload f) = Unit
DeletesManaged config (repository_call c) = Unit
DeletesManaged config (operation_started o) = Unit
DeletesManaged config cancellation_read = Unit
DeletesManaged config (metadata_read path) = Unit
DeletesManaged config (staging_removed path) = Unit
DeletesManaged config (run_started trigger) = Unit
DeletesManaged config (lock_requested owner) = Unit
DeletesManaged config (question q) = Unit

quiet : (config : AppConfig) (e : Event) → IsQuiet e → DeletesManaged config e
quiet config (remote_delete path) h = absurd h
quiet config (remote_create path) h = absurd h
quiet config (remote_upload f) h = absurd h
quiet config (repository_call c) h = tt
quiet config (operation_started o) h = tt
quiet config cancellation_read h = tt
quiet config (metadata_read path) h = tt
quiet config (staging_removed path) h = tt
quiet config (run_started trigger) h = tt
quiet config (lock_requested owner) h = tt
quiet config (question q) h = tt

-- What the mapping of the root gives is the path in its first summary.
abbrev IsInitial : AppConfig → SyncRootConfig → RootSyncSummary → Type 0
IsInitial config root s =
    canonical_remote_path config.instance_config.remote_root root.local_path
      root.remote_path_override
    ≡ ok s.canonical_remote_path

root_summary_at-IsInitial :
    (config : AppConfig) (root : SyncRootConfig) (r : Result Text PathMappingError)
    → canonical_remote_path config.instance_config.remote_root root.local_path
        root.remote_path_override
      ≡ r
    → Returns (IsInitial config root) (lift (root_summary_at root r))
unfolding root_summary_at lift
root_summary_at-IsInitial config root (ok path) h = Returns-pure _ h
root_summary_at-IsInitial config root (err e) h = Returns-fail _

initial_root_summary-IsInitial :
    (config : AppConfig) (root : SyncRootConfig)
    → Returns (IsInitial config root) (lift (initial_root_summary config root))
unfolding initial_root_summary
initial_root_summary-IsInitial config root = root_summary_at-IsInitial config root _ refl

module _ (env : Environment) (platform : Platform) (config : AppConfig) where
  run_root-managed :
      (run_id : ℕ) (force : Bool) (base_summary : SyncRunSummary) (available : Option ℕ)
      (root : SyncRootConfig)
      → In root config.roots
      → root.enabled ≡ true
      → Emits
          (DeletesManaged config)
          (run_root env platform config run_id force base_summary available root)
  unfolding run_root
  run_root-managed run_id force base_summary available root m e =
      Emits-bind_with _ _ (Emits-lift _) (initial_root_summary-IsInitial config root) (λ s i.
        let missing = missing-Emits (quiet config) env root s in
        let phases =
          Emits-execute_root (quiet config) s.canonical_remote_path
            (λ path b. (root, s.canonical_remote_path, m, e, i, b)) env run_id root base_summary
            (λ path. tt) (λ f. tt) platform config.sync available force s refl in
        search (emits_rules, quiet config) depth 14)

  after_root-managed :
      (report : SyncRunReport) (available : Option ℕ)
      (next : Option ℕ → SyncRunReport → M RunOutcome) (r : Result RootRun SyncError)
      → ((a : Option ℕ) (t : SyncRunReport) → Emits (DeletesManaged config) (next a t))
      → Emits (DeletesManaged config) (after_root env platform config report available next r)
  unfolding after_root
  after_root-managed report available next (err e) h = search emits_rules
  after_root-managed report available next (ok (missing_root s)) h = search emits_rules
  after_root-managed report available next (ok (executed x)) h = search (emits_rules, quiet config)

  run_roots-managed :
      (force : Bool) (roots : List SyncRootConfig) (available : Option ℕ) (report : SyncRunReport)
      → ((r : SyncRootConfig) → In r roots → In r config.roots)
      → Emits (DeletesManaged config) (run_roots env platform config force roots available report)
  unfolding run_roots
  run_roots-managed force [] available report h = search emits_rules
  run_roots-managed force (root ∷ roots) available report h =
      let rest = λ (a : Option ℕ) (t : SyncRunReport).
        run_roots-managed force roots a t (λ r m. h r (inr m)) in
      Emits-if_known root.enabled _ _
        (λ e. Emits-bind _ _ (Emits-is_cancelled env tt) (λ cancelled.
          Emits-if cancelled _ _ (Emits-pure _) (
            Emits-bind _ _
              (Emits-attempt _ (
                run_root-managed report.run_id force report.summary available root
                  (h root (inl refl)) e))
              (λ outcome. after_root-managed report available _ outcome rest))))
        (λ n. rest available report)

  execute_run-managed :
      (force : Bool) (report : SyncRunReport)
      → Emits (DeletesManaged config) (execute_run env platform config force report)
  unfolding execute_run available_remote_bytes
  execute_run-managed force report =
      let rest =
        λ (a : Option ℕ) (t : SyncRunReport). run_roots-managed force config.roots a t (λ r m. m) in
      search (emits_rules, quiet config, rest) depth 12

  conclude-managed :
      (o : RunOutcome) → Emits (DeletesManaged config) (conclude env platform config o)
  unfolding conclude
  conclude-managed (ok u, report) = search (emits_rules, quiet config)
  conclude-managed (err e, report) = search emits_rules

  close-managed :
      (owner : Text) (report : SyncRunReport)
      → Emits (DeletesManaged config) (close_run env platform config owner report)
  unfolding close_run
  close-managed owner report = search (emits_rules, quiet config) depth 12

  run_locked-managed :
      (options : SyncRunOptions)
      → Emits (DeletesManaged config) (run_locked env platform config options)
  unfolding run_locked
  run_locked-managed options =
      search (emits_rules, quiet config, execute_run-managed, conclude-managed, close-managed) depth
        14

  run_with_lock-managed :
      (options : SyncRunOptions)
      → Emits (DeletesManaged config) (run_with_lock env platform config options)
  unfolding run_with_lock
  run_with_lock-managed options = search (emits_rules, quiet config, run_locked-managed) depth 12

  snapshot-managed :
      (root : SyncRootConfig)
      → Emits (DeletesManaged config) (has_no_snapshot env platform config root)
  unfolding has_no_snapshot
  snapshot-managed root = search (emits_rules, quiet config) depth 12

  migrate-managed :
      (roots : List SyncRootConfig)
      → Emits (DeletesManaged config) (should_auto_migrate env platform config roots)
  unfolding should_auto_migrate
  migrate-managed [] = search emits_rules
  migrate-managed (root ∷ roots) =
      let rest = migrate-managed roots in search (emits_rules, snapshot-managed) depth 12

  must_migrate-managed :
      (options : SyncRunOptions)
      → Emits (DeletesManaged config) (must_migrate env platform config options)
  unfolding must_migrate
  must_migrate-managed options = search (emits_rules, migrate-managed) depth 12

  -- What follows the decision that the run is not left to the migration.
  decided-managed :
      (options : SyncRunOptions) (migrated : M SyncRunReport) (r : Result Bool SyncError)
      (t new : List Event)
      → r ≢ ok true
      → t ≡ new ++ []
      → All (DeletesManaged config) new
      → (all : List Event) × ((continue r
            (λ migrate. if migrate then migrated else run_with_lock env platform config options)
            t).1
          ≡ all ++ [])
        × All (DeletesManaged config) all
  unfolding continue
  decided-managed options migrated (ok true) t new h e k = absurd (h refl)
  decided-managed options migrated (ok false) t new h e k =
      Emits-after (run_with_lock-managed options) t [] new e k
  decided-managed options migrated (err x) t new h e k = (new, e, k)

  run_once-managed :
      (migration : MigrationRunOptions → M MigrationRunReport) (outside : Outside)
      (options : SyncRunOptions)
      → (must_migrate env platform config options []).0 ≢ ok true
      → (all : List Event) × ((run_once env platform config migration outside options []).1
          ≡ all ++ [])
        × All (DeletesManaged config) all
  unfolding run_once lift ◌>>◌ ◌>>=◌ continue
  run_once-managed migration outside options h = go (ensure_valid_config outside config)
    where
      go :
          (r : Result (Unit {0}) SyncError)
          → (all : List Event) × (((lift r
                  >> (must_migrate env platform config options >>= λ migrate.
                      if migrate
                      then (migration (record {
                        lock_owner = options.lock_owner;
                        force_remote_rescan = options.force_remote_rescan;
                      })
                          >>= λ migrated. pure (sync_report_from_migration migrated))
                      else run_with_lock env platform config options))
                []).1
              ≡ all ++ [])
            × All (DeletesManaged config) all
      go (err x) = ([], refl, tt)
      go (ok u) =
          let (new, e, k) = (must_migrate-managed options).at [] in
          decided-managed options _ (must_migrate env platform config options []).0 _ new h e k

-- Whatever the scans, the database, the remote side and the cancellation do, and unless the run
-- decides to leave its work to the migration, every path that a run asks the remote side to delete
-- lies strictly below the remote path that the mapping gives for some enabled root of the
-- configuration.
pub run_once-DeletesManaged :
    (env : Environment) (platform : Platform) (config : AppConfig)
    (migration : MigrationRunOptions → M MigrationRunReport) (outside : Outside)
    (options : SyncRunOptions)
    → (must_migrate env platform config options []).0 ≢ ok true
    → All (DeletesManaged config) (run_once env platform config migration outside options []).1
run_once-DeletesManaged env platform config migration outside options h =
    let (new, e, k) = run_once-managed env platform config migration outside options h in
    subst (All (DeletesManaged config)) (sym (e ∙ append-nil new)) k
