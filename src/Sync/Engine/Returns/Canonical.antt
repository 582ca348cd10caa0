-- ===== src/Sync/Engine/Returns/Canonical.antt =====
-- The first phase of a root and the canonical remote path in its summary.
use ya_disk_sync.Base.{ℕ, zero, suc, ◌≡◌, Bool, Option, none, some, List, [], ◌∷◌}
use ya_disk_sync.Base.Result.{Result, ok, err}
use ya_disk_sync.Base.Text.{Text}
use ya_disk_sync.Core.Config.{SyncRootConfig}
use ya_disk_sync.Disk.{YandexDiskError}
use ya_disk_sync.Scanner.{LocalPath, LocalDirectoryEntry}
use ya_disk_sync.State.{SyncRunSummary}
use ya_disk_sync.Sync.LivePlan.{LiveScanPlan, DeletedLocalSubtree}
use ya_disk_sync.Sync.Plan.{Platform, SyncPlanOperation}
use ya_disk_sync.Sync.Summary.{RootSyncSummary}
use ya_disk_sync.Base.Exec.{pure}
use ya_disk_sync.Sync.Engine.World.{Environment, M}
use ya_disk_sync.Sync.Engine.Returns.{
  Returns, returns_rules, Returns-bind_with, Returns-bind, Returns-if, Returns-pure, Returns-then,
}
use ya_disk_sync.Sync.Engine.Tasks.{join_rounds, join_all, pick}
use ya_disk_sync.Sync.Engine.Roots.{record_deleted_subtree, record_deleted_subtrees}
use ya_disk_sync.Sync.Engine.Directories.{
  RootState, record_found, register_missing, fill_batch, after_create, directory_outcome,
  run_directories, create_rounds, create_groups, apply_create_directories,
}

-- Whatever a loop over tasks keeps with each outcome, it keeps.
module _ {T S : Type 0} (I : S → Type 0) (env : Environment) (outcome : T → S → M (Bool × S))
    (keeps : (t : T) (s : S) → I s → Returns (λ (r : Bool × S). I r.1) (outcome t s)) where
  join_rounds-Keeps :
      (n : ℕ) (tasks : List T) (s : S)
      → I s
      → Returns (λ (r : Bool × S). I r.1) (join_rounds env outcome n tasks s)
  unfolding join_rounds
  join_rounds-Keeps zero tasks s h = search returns_rules
  join_rounds-Keeps (suc n) [] s h = search returns_rules
  join_rounds-Keeps (suc n) (t ∷ ts) s h = Returns-bind _ _ (λ answer. Returns-bind _ _ (λ i.
      Returns-bind_with _ _ (keeps (pick i t ts).0 s h) (λ next k.
        Returns-if next.0 _ _ (Returns-pure _ k) (join_rounds-Keeps n (pick i t ts).1 next.1 k))))

  pub join_all-Keeps :
      (tasks : List T) (s : S)
      → I s
      → Returns (λ (r : Bool × S). I r.1) (join_all env outcome tasks s)
  unfolding join_all
  join_all-Keeps tasks s h = search join_rounds-Keeps

module _ (c : Text) where
  abbrev pub At : RootSyncSummary → Type 0
  At s = s.canonical_remote_path ≡ c

  abbrev pub Keeps : {A : Type 0} → M (A × RootState) → Type 0
  Keeps {A} m = Returns (λ (r : A × RootState). At r.1.root_summary) m

  module _ (env : Environment) (run_id : ℕ) where
    pub subtree-Keeps :
        (subtree : DeletedLocalSubtree) (s : RootSyncSummary)
        → At s
        → Returns At (record_deleted_subtree env run_id subtree s)
    unfolding record_deleted_subtree
    subtree-Keeps subtree s h = search returns_rules

    pub subtrees-Keeps :
        (subtrees : List DeletedLocalSubtree) (s : RootSyncSummary)
        → At s
        → Returns At (record_deleted_subtrees env run_id subtrees s)
    unfolding record_deleted_subtrees
    subtrees-Keeps [] s h = search returns_rules
    subtrees-Keeps (subtree ∷ subtrees) s h =
        Returns-bind_with _ _ (subtree-Keeps subtree s h) (λ t k. subtrees-Keeps subtrees t k)

    module _ (base_summary : SyncRunSummary) where
      found-Keeps :
          (first : M (Unit {0})) (s : RootSyncSummary)
          (r : Option DeletedLocalSubtree × LiveScanPlan)
          → At s
          → Keeps (record_found env run_id base_summary first s r)
      unfolding record_found
      found-Keeps first s (none, plan) h = search returns_rules
      found-Keeps first s (some subtree, plan) h = Returns-then _ _ (
          Returns-bind_with _ _ (subtree-Keeps subtree s h)
            (λ t k. Returns-then _ _ (Returns-pure _ k)))

      pub register-Keeps :
          (first : M (Unit {0})) (p : LocalPath) (relative remote : Text) (s : RootState)
          → At s.root_summary
          → Keeps (register_missing env run_id base_summary first p relative remote s)
      unfolding register_missing
      register-Keeps first p relative remote s h = search (returns_rules, found-Keeps)

      fill-Keeps :
          (n : ℕ) (pending batch : List LocalDirectoryEntry) (s : RootState)
          → At s.root_summary
          → Keeps (fill_batch env run_id base_summary n pending batch s)
      unfolding fill_batch
      fill-Keeps n [] batch s h = search returns_rules
      fill-Keeps n (d ∷ pending) batch s h =
          Returns-if _ _ _
            (Returns-if _ _ _ (fill-Keeps n pending batch s h) (
              Returns-bind_with _ _
                (register-Keeps (pure tt) d.local_path d.relative_path d.remote_path s h)
                (λ found k. fill-Keeps n pending _ found.1 k)))
            (Returns-pure _ h)

      module _ (platform : Platform) (root : SyncRootConfig) where
        created-Keeps :
            (d : LocalDirectoryEntry) (id : ℕ) (s : RootState)
            (r : Result (Unit {0}) YandexDiskError)
            → At s.root_summary
            → Keeps (after_create env run_id base_summary platform root (d, id) s r)
        unfolding after_create
        created-Keeps d id s (ok u) h = search returns_rules depth 12
        created-Keeps d id s (err e) h = search returns_rules depth 14

        directory-Keeps :
            (task : LocalDirectoryEntry × ℕ) (s : RootState)
            → At s.root_summary
            → Keeps (directory_outcome env run_id base_summary platform root task s)
        unfolding directory_outcome
        directory-Keeps (d, id) s h = search (returns_rules, created-Keeps)

        run_directories-Keeps :
            (batch : List LocalDirectoryEntry) (s : RootState)
            → At s.root_summary
            → Keeps (run_directories env run_id base_summary platform root batch s)
        unfolding run_directories
        run_directories-Keeps batch s h = Returns-bind _ _ (λ tasks.
            join_all-Keeps (λ (t : RootState). At t.root_summary) env _ directory-Keeps tasks s h)

        rounds-Keeps :
            (n concurrency : ℕ) (pending : List LocalDirectoryEntry) (s : RootState)
            → At s.root_summary
            → Keeps (create_rounds env run_id base_summary platform root n concurrency pending s)
        unfolding create_rounds
        rounds-Keeps zero concurrency pending s h = search returns_rules
        rounds-Keeps (suc n) concurrency [] s h = search returns_rules
        rounds-Keeps (suc n) concurrency (d ∷ pending) s h = Returns-bind _ _ (λ cancelled.
            Returns-if cancelled _ _ (Returns-pure _ h) (
              Returns-bind_with _ _ (fill-Keeps concurrency (d ∷ pending) [] s h) (λ filled k.
                Returns-bind_with _ _ (run_directories-Keeps filled.0.0 filled.1 k) (λ next l.
                  Returns-if next.0 _ _ (Returns-pure _ l)
                    (rounds-Keeps n concurrency filled.0.1 next.1 l)))))

        groups-Keeps :
            (concurrency : ℕ) (groups : List (ℕ × List LocalDirectoryEntry)) (s : RootState)
            → At s.root_summary
            → Keeps (create_groups env run_id base_summary platform root concurrency groups s)
        unfolding create_groups
        groups-Keeps concurrency [] s h = search returns_rules
        groups-Keeps concurrency ((depth, ds) ∷ groups) s h =
            Returns-bind_with _ _ (rounds-Keeps _ concurrency ds s h) (λ next k.
              Returns-if next.0 _ _ (Returns-pure _ k) (groups-Keeps concurrency groups next.1 k))

        pub apply_create_directories-Keeps :
            (concurrency : ℕ) (plan : List SyncPlanOperation) (s : RootState)
            → At s.root_summary
            → Keeps
                (apply_create_directories env run_id base_summary platform root concurrency plan s)
        unfolding apply_create_directories
        apply_create_directories-Keeps concurrency plan s h = search groups-Keeps
