-- ===== src/Sync/Deletes/Safety.antt =====
-- What the operations of `collect_coalesced_delete_operations` point at.
use mathlib.Core.List.{append_assoc}
use ya_disk_sync.Base.{
  ◌≡◌, refl, sym, ap, ◌∙◌, ◌⊎◌, inl, inr, Bool, true, false, ◌&&◌, not, Option, none, some, List,
  [], ◌∷◌, ◌++◌, arith, Bool-cases, if◌then◌else◌, In, In_of_All, All, In-sort_by,
}
use ya_disk_sync.Base.Result.{Result, ok, err, is_ok}
use ya_disk_sync.Base.Text.{
  Text, ◌==◌, slash, is_slash, is_within, Below, is_within_sound, strip_prefix, strip_prefix_sound,
  trim_end_matches, contains, contains_complete,
}
use ya_disk_sync.Disk.{ResourceMetadata, is_directory}
use ya_disk_sync.Sync.LivePlan.{LiveScanPlan}
use ya_disk_sync.Sync.Inventory.{Inventory, trimmed_root}
use ya_disk_sync.Sync.Deletes.{
  RemoteDeleteOperation, candidate_below, remote_delete_candidate_relative_path,
  is_delete_candidate, has_live_descendants, missing_prefix_loop,
  top_missing_remote_directory_prefix, all_but_last, remote_segments, is_suppressed, Collected,
  delete_operation, delete_subtree, collect_at, collect_unknown, collect_step, collect_loop,
  sorted_resources, known_of_plan, le_delete, collect_coalesced_delete_operations,
}

Below-step :
    (d p segment : Text)
    → Below d (p ++ (slash ∷ segment)) ⊎ (d ≡ p ++ (slash ∷ segment))
    → Below d p
Below-step d p segment (inl (r, e)) =
    (segment ++ (slash ∷ r), e ∙ append_assoc p (slash ∷ segment) (slash ∷ r))
Below-step d p segment (inr e) = (segment, e)

-- A prefix that the search returns lies below its start and is not live.
pub missing_prefix_loop_found :
    (known : List Text) (prefix : Text) (segments : List Text) (d : Text)
    → missing_prefix_loop known prefix segments ≡ some d
    → Below d prefix × (contains known d ≡ false)
unfolding missing_prefix_loop
missing_prefix_loop_found known prefix [] d h = cc
missing_prefix_loop_found known prefix (segment ∷ rest) d h =
    let deeper = deeper_by (missing_prefix_loop_found known here rest d) in
    elim (Bool-cases (contains known here)) [
      | inl live ↦ deeper (rw live at h)
      | inr unknown ↦ elim (Bool-cases (has_live_descendants known (here ++ (slash ∷ [])))) [
        | inl inhabited ↦ deeper (ground arith)
        | inr dead ↦
            let e : here ≡ d = ground arith in
            (Below-step d prefix segment (inr (sym e)), ap (contains known) (sym e) ∙ unknown)
      ]
    ]
  where
    here : Text
    here = prefix ++ (slash ∷ segment)

    deeper_by :
        (missing_prefix_loop known here rest ≡ some d → Below d here × (contains known d ≡ false))
        → missing_prefix_loop known here rest ≡ some d
        → Below d prefix × (contains known d ≡ false)
    deeper_by found e = let (b, u) = found e in (Below-step d prefix segment (inl b), u)

pub remote_delete_candidate_below :
    (root path relative : Text)
    → remote_delete_candidate_relative_path root path ≡ ok relative
    → path ≡ trimmed_root root ++ (slash ∷ relative)
unfolding remote_delete_candidate_relative_path
remote_delete_candidate_below root path relative h = elim (Bool-cases (path == trimmed_root root)) [
  | inl same ↦ cc (rw same at h)
  | inr other ↦ go (strip_prefix path (trimmed_root root ++ (slash ∷ []))) refl (rw other at h)
]
  where
    go :
        (o : Option Text)
        → strip_prefix path (trimmed_root root ++ (slash ∷ [])) ≡ o
        → candidate_below o ≡ ok relative
        → path ≡ trimmed_root root ++ (slash ∷ relative)
    go none e k = cc
    go (some r) e k =
        let same : r ≡ relative = ground arith in
        strip_prefix_sound path (trimmed_root root ++ (slash ∷ [])) r e
        ∙ append_assoc (trimmed_root root) (slash ∷ []) r
        ∙ ap (λ (z : Text). trimmed_root root ++ (slash ∷ z)) same

pub is_delete_candidate_ok :
    (root path : Text)
    → is_delete_candidate root path ≡ true
    → (relative : Text) × (remote_delete_candidate_relative_path root path ≡ ok relative)
unfolding is_delete_candidate
is_delete_candidate_ok root path h = go (remote_delete_candidate_relative_path root path) refl h
  where
    go :
        (r : Result Text Text)
        → remote_delete_candidate_relative_path root path ≡ r
        → is_ok r ≡ true
        → (relative : Text) × (remote_delete_candidate_relative_path root path ≡ ok relative)
    go (ok relative) e k = (relative, e)
    go (err reason) e k = cc

is_delete_candidate-Below :
    (root path : Text) → is_delete_candidate root path ≡ true → Below path (trimmed_root root)
is_delete_candidate-Below root path h =
    let (relative, e) = is_delete_candidate_ok root path h in
    (relative, remote_delete_candidate_below root path relative e)

module _ (root_id root : Text) (known : List Text) where
  -- The path lies strictly below the managed root, and no live entry has it.
  abbrev pub IsExtra : RemoteDeleteOperation → Type 0
  IsExtra op = Below op.remote_path (trimmed_root root) × (contains known op.remote_path ≡ false)

  All-snoc :
      (ops : List RemoteDeleteOperation) (op : RemoteDeleteOperation)
      → All IsExtra ops
      → IsExtra op
      → All IsExtra (ops ++ (op ∷ []))
  All-snoc [] op h k = (k, tt)
  All-snoc (o ∷ ops) op h k = (h.0, All-snoc ops op h.1 k)

  delete_subtree-IsExtra :
      (s : Collected) (path : Text)
      → All IsExtra s.operations
      → Below path (trimmed_root root)
      → contains known path ≡ false
      → All IsExtra (delete_subtree root_id root known s path).operations
  unfolding delete_subtree delete_operation
  delete_subtree-IsExtra s path h below unknown = All-snoc s.operations _ h (below, unknown)

  collect_at-IsExtra :
      (s : Collected) (r : ResourceMetadata)
      → All IsExtra s.operations
      → Below r.path (trimmed_root root)
      → contains known r.path ≡ false
      → All IsExtra (collect_at root_id root known s r).operations
  unfolding collect_at delete_operation
  collect_at-IsExtra s r h below unknown = go (
      is_directory r.resource_type
      && not (has_live_descendants known (trim_end_matches is_slash r.path ++ (slash ∷ []))))
    where
      go :
          (whole : Bool)
          → All IsExtra
              (if whole then delete_subtree root_id root known s r.path else record s {
                operations =
                    s.operations ++ delete_operation root_id root known r.path r.resource_type ∷ [];
              }).operations
      go true = delete_subtree-IsExtra s r.path h below unknown
      go false = All-snoc s.operations _ h (below, unknown)

  collect_unknown-IsExtra :
      (s : Collected) (r : ResourceMetadata) (o : Option Text)
      → All IsExtra s.operations
      → Below r.path (trimmed_root root)
      → contains known r.path ≡ false
      → top_missing_remote_directory_prefix root r.path known ≡ o
      → All IsExtra (collect_unknown root_id root known s r o).operations
  unfolding collect_unknown top_missing_remote_directory_prefix
  collect_unknown-IsExtra s r none h below unknown e = collect_at-IsExtra s r h below unknown
  collect_unknown-IsExtra s r (some d) h below unknown e =
      elim (Bool-cases (is_suppressed s.suppressed_prefixes d)) [
        | inl covered ↦ rw covered h
        | inr fresh ↦
            let (b, u) =
              missing_prefix_loop_found known (trimmed_root root)
                (all_but_last (remote_segments root r.path)) d e in
            rw fresh (delete_subtree-IsExtra s d h b u)
      ]

  collect_step-IsExtra :
      (s : Collected) (r : ResourceMetadata)
      → All IsExtra s.operations
      → All IsExtra (collect_step root_id root known s r).operations
  unfolding collect_step
  collect_step-IsExtra s r h = elim (Bool-cases (is_delete_candidate root r.path)) [
    | inr invalid ↦ rw invalid h
    | inl candidate ↦ rw candidate (elim (Bool-cases (is_suppressed s.suppressed_prefixes r.path)) [
      | inl covered ↦ rw covered h
      | inr fresh ↦ rw fresh (elim (Bool-cases (contains known r.path)) [
        | inl live ↦ rw live h
        | inr unknown ↦ rw unknown (
            collect_unknown-IsExtra s r (top_missing_remote_directory_prefix root r.path known) h
              (is_delete_candidate-Below root r.path candidate) unknown refl)
      ])
    ])
  ]

  collect_loop-IsExtra :
      (s : Collected) (rs : List ResourceMetadata)
      → All IsExtra s.operations
      → All IsExtra (collect_loop root_id root known s rs).operations
  unfolding collect_loop
  collect_loop-IsExtra s [] h = h
  collect_loop-IsExtra s (r ∷ rs) h =
      collect_loop-IsExtra (collect_step root_id root known s r) rs (collect_step-IsExtra s r h)

-- Every live path has all paths between it and the root among the live ones.
abbrev pub HasParents : Text → List Text → Type 0
HasParents root known =
    (live parent : Text)
    → In live known
    → Below live parent
    → Below parent (trimmed_root root)
    → In parent known

-- Every delete operation is strictly below the managed root, and its path is no live one.
pub collect_coalesced_delete_operations_extra :
    (root_id root : Text) (live_plan : LiveScanPlan) (inventory : Inventory)
    (op : RemoteDeleteOperation)
    → In op (collect_coalesced_delete_operations root_id root live_plan inventory)
    → Below op.remote_path (trimmed_root root)
      × (contains (known_of_plan root live_plan) op.remote_path ≡ false)
unfolding collect_coalesced_delete_operations
collect_coalesced_delete_operations_extra root_id root live_plan inventory op m =
    let known = known_of_plan root live_plan in
    let start : Collected = record { suppressed_prefixes = []; operations = [] } in
    let rs = sorted_resources root inventory in
    In_of_All (IsExtra root_id root known) (collect_loop root_id root known start rs).operations op
      (collect_loop-IsExtra root_id root known start rs tt) (In-sort_by le_delete op _ m)

-- Where every live path has the paths between it and the root among the live ones, no delete
-- operation takes anything live with it: no live path is the operation's path or below it.
pub collect_coalesced_delete_operations_safe :
    (root_id root : Text) (live_plan : LiveScanPlan) (inventory : Inventory)
    (op : RemoteDeleteOperation) (live : Text)
    → HasParents root (known_of_plan root live_plan)
    → In op (collect_coalesced_delete_operations root_id root live_plan inventory)
    → In live (known_of_plan root live_plan)
    → is_within live op.remote_path ≡ false
collect_coalesced_delete_operations_safe root_id root live_plan inventory op live parents m l =
    let known = known_of_plan root live_plan in
    let (below, unknown) =
      collect_coalesced_delete_operations_extra root_id root live_plan inventory op m in
    elim (Bool-cases (is_within live op.remote_path)) [
      | inr outside ↦ outside
      | inl within ↦ elim (is_within_sound live op.remote_path within) [
        | inl e ↦ cc (contains_complete known live l, unknown, ap (contains known) e)
        | inr b ↦ cc (
          contains_complete known op.remote_path (parents live op.remote_path l b below),
          unknown,
        )
      ]
    ]
