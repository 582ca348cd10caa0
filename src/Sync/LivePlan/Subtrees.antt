-- ===== src/Sync/LivePlan/Subtrees.antt =====
-- The deleted subtrees of a live plan, and which paths they cover.
use mathlib.Core.Path.{subst}
use ya_disk_sync.Base.{
  ◌≡◌, refl, ap, ◌⊎◌, inl, inr, Bool, true, false, ◌||◌, not, Option, none, some, List, [], ◌∷◌,
  ◌++◌, arith, Bool-ext, Bool-cases, if◌then◌else◌, filter, In, All, Pairwise, In-append_left,
  In-append_right, In-append_split, any-false, any-true, any_of_In, In-filter, In-filter_of,
  In-sort_by, In-sort_by_of, Pairwise-filter, Pairwise-sort_by, All-of_In, unwrap_or, sort_by,
}
use ya_disk_sync.Base.Text.{Text, is_within, Within-trans, is_within_sound, is_within_complete}
use ya_disk_sync.Sync.LivePlan.{
  DeletedLocalSubtree, LiveScanPlan, is_relative_path_deleted, add_subtree, with_subtree, le_prefix,
  le_depth, FileSystem, scan_directories, from_scan_report, registered, register,
  register_missing_local_path, detect_deleted_local_subtree,
}
use ya_disk_sync.Scanner.{LocalPath, LocalDirectoryEntry, ScanReport}

-- Neither prefix lies within the other.
abbrev pub Apart : DeletedLocalSubtree → DeletedLocalSubtree → Type 0
Apart a b =
    (is_within a.relative_prefix b.relative_prefix ≡ false)
    × (is_within b.relative_prefix a.relative_prefix ≡ false)

Apart-symm : (a b : DeletedLocalSubtree) → Apart a b → Apart b a
Apart-symm a b h = (h.1, h.0)

is_within_trans :
    (a b c : Text) → is_within a b ≡ true → is_within b c ≡ true → is_within a c ≡ true
is_within_trans a b c h k =
    is_within_complete a c (Within-trans a b c (is_within_sound a b h) (is_within_sound b c k))

Pairwise-snoc :
    (xs : List DeletedLocalSubtree) (s : DeletedLocalSubtree)
    → Pairwise Apart xs
    → All (λ x. Apart x s) xs
    → Pairwise Apart (xs ++ (s ∷ []))
Pairwise-snoc [] s p h = (tt, tt)
Pairwise-snoc (x ∷ xs) s p h = (grow xs p.0, Pairwise-snoc xs s p.1 h.1)
  where
    grow : (ys : List DeletedLocalSubtree) → All (Apart x) ys → All (Apart x) (ys ++ (s ∷ []))
    grow [] k = (h.0, tt)
    grow (y ∷ ys) k = (k.0, grow ys k.1)

module _ (subtrees : List DeletedLocalSubtree) (s : DeletedLocalSubtree) where
  abbrev survivors : List DeletedLocalSubtree
  survivors = filter (λ old. not (is_within old.relative_prefix s.relative_prefix)) subtrees

  survivor-Apart :
      is_relative_path_deleted s.relative_prefix subtrees ≡ false
      → (a : DeletedLocalSubtree) → In a survivors
      → Apart a s
  unfolding is_relative_path_deleted
  survivor-Apart fresh a m =
      let r =
        In-filter (λ old. not (is_within old.relative_prefix s.relative_prefix)) subtrees a m in
      (
        ground (arith, r.1),
        any-false (λ (t : DeletedLocalSubtree). is_within s.relative_prefix t.relative_prefix)
            subtrees a fresh r.0,
      )

  -- Adding a subtree keeps the list free of nesting: no prefix lies within another one.
  pub with_subtree-Pairwise : Pairwise Apart subtrees → Pairwise Apart (with_subtree subtrees s)
  unfolding with_subtree add_subtree
  with_subtree-Pairwise h =
      elim (Bool-cases (is_relative_path_deleted s.relative_prefix subtrees)) [
        | inl covered ↦ rw covered h
        | inr fresh ↦ rw fresh (
            Pairwise-sort_by le_prefix Apart Apart-symm (survivors ++ (s ∷ [])) (
              Pairwise-snoc survivors s (Pairwise-filter Apart _ subtrees h)
                (All-of_In survivors (survivor-Apart fresh))))
      ]

  at_member :
      (path : Text) (t : DeletedLocalSubtree)
      → In t (with_subtree subtrees s)
      → is_within path t.relative_prefix ≡ true
      → is_relative_path_deleted path (with_subtree subtrees s) ≡ true
  unfolding is_relative_path_deleted
  at_member path t m h =
      any_of_In (λ (u : DeletedLocalSubtree). is_within path u.relative_prefix) _ t m h

  fresh_member :
      (t : DeletedLocalSubtree)
      → is_relative_path_deleted s.relative_prefix subtrees ≡ false
      → In t survivors ⊎ (t ≡ s)
      → In t (with_subtree subtrees s)
  unfolding with_subtree add_subtree
  fresh_member t fresh (inl m) =
      rw fresh (In-sort_by_of le_prefix t _ (In-append_left t survivors (s ∷ []) m))
  fresh_member t fresh (inr e) =
      rw fresh (In-sort_by_of le_prefix t _ (In-append_right t survivors (s ∷ []) (inl e)))

  still_deleted :
      (path : Text) (t : DeletedLocalSubtree)
      → In t subtrees
      → is_within path t.relative_prefix ≡ true
      → is_relative_path_deleted path (with_subtree subtrees s) ≡ true
  unfolding with_subtree add_subtree
  still_deleted path t m h =
      elim (Bool-cases (is_relative_path_deleted s.relative_prefix subtrees)) [
        | inl covered ↦ at_member path t (rw covered m) h
        | inr fresh ↦ elim (Bool-cases (is_within t.relative_prefix s.relative_prefix)) [
          | inl nested ↦
              at_member path s (fresh_member s fresh (inr refl))
                (is_within_trans path t.relative_prefix s.relative_prefix h nested)
          | inr kept ↦
              at_member path t
                (fresh_member t fresh (inl (In-filter_of _ subtrees t m (ground arith)))) h
        ]
      ]

  covering :
      (path : Text)
      → is_relative_path_deleted path subtrees ≡ true
      → (t : DeletedLocalSubtree) × In t subtrees × (is_within path t.relative_prefix ≡ true)
  unfolding is_relative_path_deleted
  covering path h =
      any-true (λ (t : DeletedLocalSubtree). is_within path t.relative_prefix) subtrees h

  newly_deleted :
      (path : Text)
      → is_within path s.relative_prefix ≡ true
      → is_relative_path_deleted path (with_subtree subtrees s) ≡ true
  newly_deleted path h = elim (Bool-cases (is_relative_path_deleted s.relative_prefix subtrees)) [
    | inl covered ↦
        let (t, m, k) = covering s.relative_prefix covered in
        still_deleted path t m (is_within_trans path s.relative_prefix t.relative_prefix h k)
    | inr fresh ↦ at_member path s (fresh_member s fresh (inr refl)) h
  ]

  no_more_deleted :
      (path : Text)
      → is_relative_path_deleted path (with_subtree subtrees s) ≡ true
      → (is_relative_path_deleted path subtrees || is_within path s.relative_prefix) ≡ true
  unfolding with_subtree add_subtree
  no_more_deleted path h = elim (Bool-cases (is_relative_path_deleted s.relative_prefix subtrees)) [
    | inl covered ↦ let r = rw covered at h in ground (arith, r)
    | inr fresh ↦
        let (t, m, k) =
          any-true (λ (u : DeletedLocalSubtree). is_within path u.relative_prefix)
            (sort_by le_prefix (survivors ++ (s ∷ []))) (rw fresh at h) in
        elim (In-append_split t survivors (s ∷ []) (In-sort_by le_prefix t _ m)) [
          | inl old ↦
              let o : is_relative_path_deleted path subtrees ≡ true =
                any_of_In (λ (u : DeletedLocalSubtree). is_within path u.relative_prefix) subtrees t
                  (In-filter (λ u. not (is_within u.relative_prefix s.relative_prefix)) subtrees t
                    old).0
                  k in
              ground (arith, o)
          | inr (inl e) ↦ ground arith
          | inr (inr impossible) ↦ absurd impossible
        ]
  ]

  old_or_new :
      (path : Text)
      → (is_relative_path_deleted path subtrees || is_within path s.relative_prefix) ≡ true
      → is_relative_path_deleted path (with_subtree subtrees s) ≡ true
  old_or_new path h = elim (Bool-cases (is_relative_path_deleted path subtrees)) [
    | inl old ↦ let (t, m, k) = covering path old in still_deleted path t m k
    | inr new ↦ newly_deleted path (rw new at h)
  ]

  -- After adding a subtree a path counts as deleted exactly if it did before or lies within the
  -- new prefix: dropping the nested subtrees loses nothing.
  pub deleted-with_subtree :
      (path : Text)
      → is_relative_path_deleted path (with_subtree subtrees s)
        ≡ (is_relative_path_deleted path subtrees || is_within path s.relative_prefix)
  deleted-with_subtree path = Bool-ext _ _ (no_more_deleted path) (old_or_new path)

-- The plan that a scan report gives has no subtree inside another, and a missing local path that
-- is registered later keeps it so.
pub scan_directories-Pairwise :
    (fs : FileSystem) (ds kept : List LocalDirectoryEntry) (subtrees : List DeletedLocalSubtree)
    → Pairwise Apart subtrees
    → Pairwise Apart (scan_directories fs ds kept subtrees).1
unfolding scan_directories
scan_directories-Pairwise fs [] kept subtrees h = h
scan_directories-Pairwise fs (d ∷ ds) kept subtrees h =
    scan_directories-Pairwise fs ds
      (if is_relative_path_deleted d.relative_path subtrees || not (fs.is_dir d.local_path)
        then kept
        else kept ++ d ∷ [])
      _ (step (is_relative_path_deleted d.relative_path subtrees) (fs.is_dir d.local_path))
  where
    missing : DeletedLocalSubtree
    missing = record {
      root_id = d.root_id;
      relative_prefix = d.relative_path;
      remote_prefix = d.remote_path;
    }

    step :
        (deleted there : Bool)
        → Pairwise Apart (
            if deleted
            then subtrees
            else if not there
            then with_subtree subtrees missing
            else subtrees)
    step true there = h
    step false true = h
    step false false = with_subtree-Pairwise subtrees missing h

add_subtree-Pairwise :
    (subtrees : List DeletedLocalSubtree) (s : DeletedLocalSubtree)
    (added : List DeletedLocalSubtree)
    → add_subtree subtrees s ≡ some added
    → Pairwise Apart subtrees
    → Pairwise Apart added
unfolding with_subtree
add_subtree-Pairwise subtrees s added e h =
    subst (Pairwise Apart) (ap (λ o. unwrap_or o subtrees) e) (with_subtree-Pairwise subtrees s h)

-- `register` keeps the plan free of nesting.
register-IsNestedFree :
    (p : LiveScanPlan) (o : Option DeletedLocalSubtree)
    → Pairwise Apart p.deleted_subtrees
    → Pairwise Apart (register p o).1.deleted_subtrees
unfolding register
register-IsNestedFree p none h = h
register-IsNestedFree p (some s) h = go (add_subtree p.deleted_subtrees s) refl
  where
    go :
        (o : Option (List DeletedLocalSubtree))
        → add_subtree p.deleted_subtrees s ≡ o
        → Pairwise Apart (registered p s o).1.deleted_subtrees
    go none e = h
    go (some added) e = add_subtree-Pairwise p.deleted_subtrees s added e h

-- No deleted subtree of the plan lies inside another one.
abbrev pub IsNestedFree : LiveScanPlan → Type 0
IsNestedFree plan = Pairwise Apart plan.deleted_subtrees

-- The plan made from a scan report has no deleted subtree inside another, whatever the file system
-- says of each directory.
pub from_scan_report-IsNestedFree :
    (fs : FileSystem) (root : LocalPath) (report : ScanReport)
    → IsNestedFree (from_scan_report fs root report)
unfolding from_scan_report
from_scan_report-IsNestedFree fs root report =
    scan_directories-Pairwise fs (sort_by le_depth report.directories) [] [] tt

-- Registering a missing local path keeps a plan free of subtrees inside one another.
pub register_missing_local_path-IsNestedFree :
    (fs : FileSystem) (plan : LiveScanPlan) (local_path : LocalPath)
    (relative_path remote_path : Text)
    → IsNestedFree plan
    → IsNestedFree (register_missing_local_path fs plan local_path relative_path remote_path).1
unfolding register_missing_local_path
register_missing_local_path-IsNestedFree fs plan local_path relative_path remote_path =
    register-IsNestedFree plan (
      detect_deleted_local_subtree fs plan.root_id plan.root_local_path local_path relative_path
        remote_path)
