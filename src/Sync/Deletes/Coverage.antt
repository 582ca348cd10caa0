-- ===== src/Sync/Deletes/Coverage.antt =====
-- Surplus resources, and the operations that cover them.
use mathlib.Core.Path.{subst}
use ya_disk_sync.Base.{
  ◌≡◌, refl, sym, ap, ◌∙◌, ◌⊎◌, inl, inr, Bool, true, false, ◌&&◌, not, Option, none, some, List,
  [], ◌∷◌, ◌++◌, arith, Bool-cases, if◌then◌else◌, In, filter, any, In-append_left, In-append_right,
  sort_by, In-sort_by_of, In-filter_of,
}
use ya_disk_sync.Base.Result.{ok}
use ya_disk_sync.Base.Text.{
  Text, ◌==◌, slash, is_slash, is_within, Within, is_within_sound, is_within_complete, Within-trans,
  contains, trim_end_matches,
}
use ya_disk_sync.Disk.{directory_resource, ResourceMetadata, is_directory}
use ya_disk_sync.Sync.LivePlan.{LiveScanPlan}
use ya_disk_sync.Sync.Inventory.{Inventory, values, trimmed_root}
use ya_disk_sync.Sync.Deletes.{
  RemoteDeleteOperation, remote_delete_candidate_relative_path, is_delete_candidate,
  has_live_descendants, top_missing_remote_directory_prefix, is_suppressed, Collected,
  delete_operation, delete_subtree, collect_at, collect_unknown, collect_step, collect_loop,
  sorted_resources, known_of_plan, le_delete, le_resource, collect_coalesced_delete_operations,
}
use ya_disk_sync.Sync.Deletes.Safety.{remote_delete_candidate_below}
use ya_disk_sync.Sync.Deletes.Prefixes.{IsPlain, top_missing-above}

module _ (root_id root : Text) (known : List Text) where
  -- Some operation deletes the path, or a directory above it.
  abbrev pub IsCovered : Collected → Text → Type 0
  IsCovered s path =
      (op : RemoteDeleteOperation) × In op s.operations × (is_within path op.remote_path ≡ true)

  -- What is suppressed is covered.
  abbrev Suppresses : Collected → Type 0
  Suppresses s = (path : Text) → is_suppressed s.suppressed_prefixes path ≡ true → IsCovered s path

  suppressed_snoc :
      (ps : List Text) (p path : Text)
      → is_suppressed (ps ++ (p ∷ [])) path ≡ true
      → (is_suppressed ps path ≡ true) ⊎ (is_within path p ≡ true)
  unfolding is_suppressed any
  suppressed_snoc [] p path h = ground arith
  suppressed_snoc (q ∷ ps) p path h = ground (arith, suppressed_snoc ps p path)

  IsCovered-snoc :
      (s : Collected) (op : RemoteDeleteOperation) (path : Text) (ps : List Text)
      → IsCovered s path
      → IsCovered (record { suppressed_prefixes = ps; operations = s.operations ++ (op ∷ []) }) path
  IsCovered-snoc s op path ps (o, m, h) = (o, In-append_left o s.operations (op ∷ []) m, h)

  IsCovered-new :
      (s : Collected) (op : RemoteDeleteOperation) (path : Text) (ps : List Text)
      → is_within path op.remote_path ≡ true
      → IsCovered (record { suppressed_prefixes = ps; operations = s.operations ++ (op ∷ []) }) path
  IsCovered-new s op path ps h = (op, In-append_right op s.operations (op ∷ []) (inl refl), h)

  -- One step keeps what is covered, and keeps the suppressed prefixes covered.
  abbrev Grows : Collected → Collected → Type 0
  Grows s t = ((path : Text) → IsCovered s path → IsCovered t path) × (Suppresses s → Suppresses t)

  delete_subtree-Grows :
      (s : Collected) (p : Text) → Grows s (delete_subtree root_id root known s p)
  unfolding delete_subtree delete_operation
  delete_subtree-Grows s p =
      let ps = s.suppressed_prefixes ++ (p ∷ []) in
      let op = delete_operation root_id root known p directory_resource in
      (
        λ path c. IsCovered-snoc s op path ps c,
        λ h path k. elim (suppressed_snoc s.suppressed_prefixes p path k) [
          | inl old ↦ IsCovered-snoc s op path ps (h path old)
          | inr new ↦ IsCovered-new s op path ps new
        ],
      )

  delete_subtree-covers :
      (s : Collected) (p path : Text)
      → is_within path p ≡ true
      → IsCovered (delete_subtree root_id root known s p) path
  unfolding delete_subtree delete_operation
  delete_subtree-covers s p path h =
      IsCovered-new s (delete_operation root_id root known p directory_resource) path
        (s.suppressed_prefixes ++ (p ∷ [])) h

  is_within_refl : (p : Text) → is_within p p ≡ true
  is_within_refl p = is_within_complete p p (inl refl)

  collect_at-Grows :
      (s : Collected) (r : ResourceMetadata)
      → Grows s (collect_at root_id root known s r)
        × IsCovered (collect_at root_id root known s r) r.path
  unfolding collect_at
  collect_at-Grows s r = go (
      is_directory r.resource_type
      && not (has_live_descendants known (trim_end_matches is_slash r.path ++ (slash ∷ []))))
    where
      single : RemoteDeleteOperation
      single = delete_operation root_id root known r.path r.resource_type

      after : Bool → Collected
      after whole =
          if whole
          then delete_subtree root_id root known s r.path
          else record s { operations = s.operations ++ single ∷ [] }

      go : (whole : Bool) → Grows s (after whole) × IsCovered (after whole) r.path
      go true = (
        delete_subtree-Grows s r.path,
        delete_subtree-covers s r.path r.path (is_within_refl r.path),
      )
      go false = (
        (
          λ path c. IsCovered-snoc s single path s.suppressed_prefixes c,
          λ h path k. IsCovered-snoc s single path s.suppressed_prefixes (h path k),
        ),
        IsCovered-new s single r.path s.suppressed_prefixes
            (unfold delete_operation in is_within_refl r.path),
      )

  collect_unknown-Grows :
      (s : Collected) (r : ResourceMetadata) (o : Option Text)
      → Grows s (collect_unknown root_id root known s r o)
  unfolding collect_unknown
  collect_unknown-Grows s r none = (collect_at-Grows s r).0
  collect_unknown-Grows s r (some d) = elim (Bool-cases (is_suppressed s.suppressed_prefixes d)) [
    | inl old ↦ rw old (λ path c. c, λ h. h)
    | inr new ↦ rw new (delete_subtree-Grows s d)
  ]

  collect_unknown-covers :
      (s : Collected) (r : ResourceMetadata) (o : Option Text)
      → Suppresses s
      → ((d : Text) → o ≡ some d → is_within r.path d ≡ true)
      → IsCovered (collect_unknown root_id root known s r o) r.path
  unfolding collect_unknown
  collect_unknown-covers s r none h above = (collect_at-Grows s r).1
  collect_unknown-covers s r (some d) h above =
      elim (Bool-cases (is_suppressed s.suppressed_prefixes d)) [
        | inl old ↦
            let (op, m, k) = h d old in
            rw old (op, m, within_both r.path d op.remote_path (above d refl) k)
        | inr new ↦ rw new (delete_subtree-covers s d r.path (above d refl))
      ]
    where
      within_both :
          (a b c : Text) → is_within a b ≡ true → is_within b c ≡ true → is_within a c ≡ true
      within_both a b c p q =
          is_within_complete a c
            (Within-trans a b c (is_within_sound a b p) (is_within_sound b c q))

  collect_step-Grows :
      (s : Collected) (r : ResourceMetadata) → Grows s (collect_step root_id root known s r)
  unfolding collect_step
  collect_step-Grows s r =
      go (not (is_delete_candidate root r.path)) (is_suppressed s.suppressed_prefixes r.path)
        (contains known r.path)
    where
      unknown : Collected
      unknown =
          collect_unknown root_id root known s r
            (top_missing_remote_directory_prefix root r.path known)

      go :
          (invalid old live : Bool)
          → Grows s (if invalid then s else if old then s else if live then s else unknown)
      go true old live = (λ path c. c, λ h. h)
      go false true live = (λ path c. c, λ h. h)
      go false false true = (λ path c. c, λ h. h)
      go false false false = collect_unknown-Grows s r _

  -- A resource that is a plain candidate and not live.
  abbrev IsPlainExtra : ResourceMetadata → Text → Type 0
  IsPlainExtra r relative =
      (remote_delete_candidate_relative_path root r.path ≡ ok relative)
      × IsPlain relative
      × (contains known r.path ≡ false)

  collect_step-covers :
      (s : Collected) (r : ResourceMetadata) (relative : Text)
      → Suppresses s
      → IsPlainExtra r relative
      → IsCovered (collect_step root_id root known s r) r.path
  unfolding collect_step is_delete_candidate
  collect_step-covers s r relative h (candidate, plain, unknown) =
      rw candidate (elim (Bool-cases (is_suppressed s.suppressed_prefixes r.path)) [
        | inl old ↦ rw old (h r.path old)
        | inr new ↦
            rw (new, unknown)
              (collect_unknown-covers s r (top_missing_remote_directory_prefix root r.path known) h
                (λ d e. is_within_complete r.path d (above d e)))
      ])
    where
      same : r.path ≡ trimmed_root root ++ (slash ∷ relative)
      same = remote_delete_candidate_below root r.path relative candidate

      above :
          (d : Text)
          → top_missing_remote_directory_prefix root r.path known ≡ some d
          → Within r.path d
      above d e =
          subst (λ (z : Text). Within z d) (sym same)
            (top_missing-above root relative known d plain
              (ap (λ (z : Text). top_missing_remote_directory_prefix root z known) (sym same) ∙ e))

  collect_loop-Grows :
      (s : Collected) (rs : List ResourceMetadata) (path : Text)
      → IsCovered s path
      → IsCovered (collect_loop root_id root known s rs) path
  unfolding collect_loop
  collect_loop-Grows s [] path c = c
  collect_loop-Grows s (r ∷ rs) path c =
      collect_loop-Grows (collect_step root_id root known s r) rs path
        ((collect_step-Grows s r).0 path c)

  collect_loop-covers :
      (s : Collected) (rs : List ResourceMetadata) (r : ResourceMetadata) (relative : Text)
      → Suppresses s
      → In r rs
      → IsPlainExtra r relative
      → IsCovered (collect_loop root_id root known s rs) r.path
  unfolding collect_loop
  collect_loop-covers s [] r relative h m e = absurd m
  collect_loop-covers s (q ∷ rs) r relative h (inl same) e =
      collect_loop-Grows (collect_step root_id root known s q) rs r.path (
        subst (λ (z : ResourceMetadata). IsCovered (collect_step root_id root known s z) r.path)
          same (collect_step-covers s r relative h e))
  collect_loop-covers s (q ∷ rs) r relative h (inr m) e =
      collect_loop-covers (collect_step root_id root known s q) rs r relative
        ((collect_step-Grows s q).1 h) m e

empty_suppressed : (path : Text) → is_suppressed [] path ≡ true → ⊥
unfolding is_suppressed any
empty_suppressed path h = cc

-- Every remote resource that is a valid candidate below the root, has no empty piece in its
-- relative path and is not live is deleted: some operation has its path or a directory above it.
pub collect_coalesced_delete_operations_complete :
    (root_id root : Text) (live_plan : LiveScanPlan) (inventory : Inventory) (r : ResourceMetadata)
    (relative : Text)
    → In r (values inventory)
    → (r.path == root) ≡ false
    → remote_delete_candidate_relative_path root r.path ≡ ok relative
    → IsPlain relative
    → contains (known_of_plan root live_plan) r.path ≡ false
    → (op : RemoteDeleteOperation) × In op
        (collect_coalesced_delete_operations root_id root live_plan inventory)
      × (is_within r.path op.remote_path ≡ true)
unfolding collect_coalesced_delete_operations sorted_resources
collect_coalesced_delete_operations_complete root_id root live_plan inventory r relative m ne c p
      u =
    let known = known_of_plan root live_plan in
    let start : Collected = record { suppressed_prefixes = []; operations = [] } in
    let kept =
      In-filter_of (λ (q : ResourceMetadata). not (q.path == root)) (values inventory) r m
        (ap not ne) in
    let (op, i, w) =
      collect_loop-covers root_id root known start
        (sort_by le_resource
          (filter (λ (q : ResourceMetadata). not (q.path == root)) (values inventory)))
        r relative (λ path h. none_suppressed path h) (In-sort_by_of le_resource r _ kept)
        (c, p, u) in
    (op, In-sort_by_of le_delete op _ i, w)
  where
    none_suppressed :
        (path : Text)
        → is_suppressed [] path ≡ true
        → IsCovered root_id root
            (known_of_plan root live_plan)
            (record { suppressed_prefixes = []; operations = [] })
            path
    none_suppressed path h = absurd (empty_suppressed path h)
