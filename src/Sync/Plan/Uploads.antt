-- ===== src/Sync/Plan/Uploads.antt =====
-- The contents of the plan that `build_root_plan` makes.
use mathlib.Core.Path.{subst}
use ya_disk_sync.Base.{
  ◌≡◌, refl, sym, ap, ◌∙◌, ◌↔◌, ◌⊎◌, inl, inr, Bool, true, false, List, [], ◌∷◌, map, arith,
  Bool-cases, In, In-append_left, In-append_right, In-append_split, In-sort_by, In-sort_by_of,
}
use ya_disk_sync.Base.Text.{Text}
use ya_disk_sync.Scanner.{LocalFileEntry, LocalDirectoryEntry}
use ya_disk_sync.Core.Config.{SyncRootConfig}
use ya_disk_sync.Sync.LivePlan.{LiveScanPlan}
use ya_disk_sync.Sync.Inventory.{Inventory, is_remote_directory, is_remote_file}
use ya_disk_sync.Sync.Deletes.{RemoteDeleteOperation, collect_coalesced_delete_operations}
use ya_disk_sync.Sync.Plan.{
  SyncPlanOperation, create_directory, upload_file, delete_remote, Platform, root_directory,
  plan_directories, should_upload, plan_files, le_delete_order, plan_deletes, build_root_plan,
}

module _ (inventory : Inventory) where
  plan_directories_sound :
      (ds : List LocalDirectoryEntry) (o : SyncPlanOperation)
      → In o (plan_directories inventory ds)
      → (d : LocalDirectoryEntry) × (o ≡ create_directory d)
        × In d ds
        × (is_remote_directory inventory d.remote_path ≡ false)
  unfolding plan_directories
  plan_directories_sound [] o m = absurd m
  plan_directories_sound (d ∷ ds) o m =
      elim (Bool-cases (is_remote_directory inventory d.remote_path)) [
        | inl there ↦
            let (e, k, i, h) = plan_directories_sound ds o (rw there at m) in (e, k, inr i, h)
        | inr missing ↦
            let m' : In o (create_directory d ∷ plan_directories inventory ds) = rw missing at m in
            elim m' [
              | inl k ↦ (d, k, inl refl, missing)
              | inr n ↦ let (e, k, i, h) = plan_directories_sound ds o n in (e, k, inr i, h)
            ]
      ]

  plan_directories_complete :
      (ds : List LocalDirectoryEntry) (d : LocalDirectoryEntry)
      → In d ds
      → is_remote_directory inventory d.remote_path ≡ false
      → In (create_directory d) (plan_directories inventory ds)
  unfolding plan_directories
  plan_directories_complete [] d m h = absurd m
  plan_directories_complete (e ∷ ds) d (inl same) h =
      rw
        (ap (λ (z : LocalDirectoryEntry). is_remote_directory inventory z.remote_path) (sym same)
          ∙ h)
        (inl (ap create_directory same))
  plan_directories_complete (e ∷ ds) d (inr m) h =
      elim (Bool-cases (is_remote_directory inventory e.remote_path)) [
        | inl there ↦ rw there (plan_directories_complete ds d m h)
        | inr missing ↦ rw missing (inr (plan_directories_complete ds d m h))
      ]

  plan_files_sound :
      (fs : List LocalFileEntry) (o : SyncPlanOperation)
      → In o (plan_files inventory fs)
      → (f : LocalFileEntry) × (o ≡ upload_file f (is_remote_file inventory f.remote_path))
        × In f fs
        × (should_upload inventory f ≡ true)
  unfolding plan_files
  plan_files_sound [] o m = absurd m
  plan_files_sound (f ∷ fs) o m = elim (Bool-cases (should_upload inventory f)) [
    | inr kept ↦ let (g, k, i, h) = plan_files_sound fs o (rw kept at m) in (g, k, inr i, h)
    | inl wanted ↦
        let m' : In o
            (upload_file f (is_remote_file inventory f.remote_path) ∷ plan_files inventory fs) =
          rw wanted at m in
        elim m' [
          | inl k ↦ (f, k, inl refl, wanted)
          | inr n ↦ let (g, k, i, h) = plan_files_sound fs o n in (g, k, inr i, h)
        ]
  ]

  plan_files_complete :
      (fs : List LocalFileEntry) (f : LocalFileEntry)
      → In f fs
      → should_upload inventory f ≡ true
      → In (upload_file f (is_remote_file inventory f.remote_path)) (plan_files inventory fs)
  unfolding plan_files
  plan_files_complete [] f m h = absurd m
  plan_files_complete (g ∷ fs) f (inl same) h = rw (ap (should_upload inventory) (sym same) ∙ h) (
      inl
        (ap (λ (z : LocalFileEntry). upload_file z (is_remote_file inventory z.remote_path)) same))
  plan_files_complete (g ∷ fs) f (inr m) h = elim (Bool-cases (should_upload inventory g)) [
    | inl wanted ↦ rw wanted (inr (plan_files_complete fs f m h))
    | inr kept ↦ rw kept (plan_files_complete fs f m h)
  ]

  should_upload_iff :
      (f : LocalFileEntry)
      → (should_upload inventory f ≡ true) ↔ (
          (f.fingerprint.reused_from_state ≡ false)
          ⊎ (is_remote_file inventory f.remote_path ≡ false))
  unfolding should_upload
  should_upload_iff f = ground arith

module _ (root_id root : Text) (live_plan : LiveScanPlan) (inventory : Inventory) where
  abbrev wanted : List RemoteDeleteOperation
  wanted = collect_coalesced_delete_operations root_id root live_plan inventory

  In-map :
      (ops : List RemoteDeleteOperation) (o : SyncPlanOperation)
      → In o (map (λ d. delete_remote d) ops)
      → (d : RemoteDeleteOperation) × (o ≡ delete_remote d) × In d ops
  In-map [] o m = absurd m
  In-map (d ∷ ops) o (inl e) = (d, e, inl refl)
  In-map (d ∷ ops) o (inr m) = let (c, e, i) = In-map ops o m in (c, e, inr i)

  In-map_of :
      (ops : List RemoteDeleteOperation) (d : RemoteDeleteOperation)
      → In d ops
      → In (delete_remote d) (map (λ e. delete_remote e) ops)
  In-map_of [] d m = absurd m
  In-map_of (e ∷ ops) d (inl same) = inl (ap delete_remote same)
  In-map_of (e ∷ ops) d (inr m) = inr (In-map_of ops d m)

  plan_deletes_sound :
      (o : SyncPlanOperation)
      → In o (plan_deletes root_id root live_plan inventory)
      → (d : RemoteDeleteOperation) × (o ≡ delete_remote d) × In d wanted
  unfolding plan_deletes
  plan_deletes_sound o m = In-map wanted o (In-sort_by le_delete_order o _ m)

  plan_deletes_complete :
      (d : RemoteDeleteOperation)
      → In d wanted
      → In (delete_remote d) (plan_deletes root_id root live_plan inventory)
  unfolding plan_deletes
  plan_deletes_complete d m = In-sort_by_of le_delete_order _ _ (In-map_of wanted d m)

-- What an operation must be to belong into the plan.
abbrev pub IsWanted :
    Platform → SyncRootConfig → Text → LiveScanPlan → Inventory → SyncPlanOperation → Type 0
IsWanted platform root path live_plan inventory (create_directory d) =
    In d (root_directory platform root path ∷ live_plan.directories)
    × (is_remote_directory inventory d.remote_path ≡ false)
IsWanted platform root path live_plan inventory (upload_file f is_update) =
    In f live_plan.files
    × ((f.fingerprint.reused_from_state ≡ false) ⊎ (is_remote_file inventory f.remote_path ≡ false))
    × (is_update ≡ is_remote_file inventory f.remote_path)
IsWanted platform root path live_plan inventory (delete_remote d) =
    In d (collect_coalesced_delete_operations root.id path live_plan inventory)

module _ (platform : Platform) (root : SyncRootConfig) (path : Text) (live_plan : LiveScanPlan)
    (inventory : Inventory) where
  abbrev directories : List LocalDirectoryEntry
  directories = root_directory platform root path ∷ live_plan.directories

  IsWanted-sound :
      (o : SyncPlanOperation)
      → In o (build_root_plan platform root path live_plan inventory)
      → IsWanted platform root path live_plan inventory o
  unfolding build_root_plan
  IsWanted-sound o m = elim (In-append_split o (plan_directories inventory directories) _ m) [
    | inl c ↦
        let (d, e, i, h) = plan_directories_sound inventory directories o c in
        subst Wanted (sym e) (i, h)
    | inr r ↦ elim (In-append_split o (plan_files inventory live_plan.files) _ r) [
      | inl u ↦
          let (f, e, i, h) = plan_files_sound inventory live_plan.files o u in
          subst Wanted (sym e) (i, (should_upload_iff inventory f).0 h, refl)
      | inr x ↦
          let (d, e, i) = plan_deletes_sound root.id path live_plan inventory o x in
          subst Wanted (sym e) i
    ]
  ]
    where
      Wanted : SyncPlanOperation → Type 0
      Wanted = IsWanted platform root path live_plan inventory

  IsWanted-complete :
      (o : SyncPlanOperation)
      → IsWanted platform root path live_plan inventory o
      → In o (build_root_plan platform root path live_plan inventory)
  unfolding build_root_plan
  IsWanted-complete (create_directory d) (i, h) =
      In-append_left _ _ _ (plan_directories_complete inventory directories d i h)
  IsWanted-complete (upload_file f u) (i, h, e) =
      In-append_right (upload_file f u) (plan_directories inventory directories) _ (
        In-append_left (upload_file f u) (plan_files inventory live_plan.files) _ (
          subst (λ (z : Bool). In (upload_file f z) (plan_files inventory live_plan.files)) (sym e)
            (plan_files_complete inventory live_plan.files f i
              ((should_upload_iff inventory f).1 h))))
  IsWanted-complete (delete_remote d) i =
      In-append_right (delete_remote d) (plan_directories inventory directories) _ (
        In-append_right (delete_remote d) (plan_files inventory live_plan.files) _
          (plan_deletes_complete root.id path live_plan inventory d i))

  -- The plan of a root holds exactly: a creation for the root and each live directory that is no
  -- remote directory yet; an upload for each live file that has changed since the last run or has
  -- no remote file, marked an update if it has one; and the coalesced deletions.
  pub build_root_plan_iff :
      (o : SyncPlanOperation)
      → In o (build_root_plan platform root path live_plan inventory)
        ↔ IsWanted platform root path live_plan inventory o
  build_root_plan_iff o = (IsWanted-sound o, IsWanted-complete o)
