-- ===== src/Sync/LivePlan/Missing.antt =====
-- The search for the missing directory above a local path.
use mathlib.Core.Path.{subst}
use ya_disk_sync.Base.{
  ◌≡◌, refl, ap, ◌≢◌, ◌⊎◌, inl, inr, Bool, true, false, ◌||◌, Option, none, some, List, [], ◌∷◌,
  ◌++◌, arith, Bool-cases,
}
use ya_disk_sync.Base.Text.{Text, ==_iff}
use ya_disk_sync.Scanner.{LocalPath}
use ya_disk_sync.Sync.LivePlan.{FileSystem, same_path, missing_loop, nearest_missing_directory}

pub same_path_iff :
    (p q : LocalPath) → (same_path p q ≡ true → p ≡ q) × (p ≡ q → same_path p q ≡ true)
unfolding same_path
same_path_iff [] [] = ground arith
same_path_iff (a ∷ p) [] = ground arith
same_path_iff [] (b ∷ q) = ground arith
same_path_iff (a ∷ p) (b ∷ q) = ground (arith, ==_iff a b, same_path_iff p q)

-- `m` does not exist, is not the root, and its parent is the root or exists.
abbrev pub TopsMissing : FileSystem → LocalPath → LocalPath → Type 0
TopsMissing fs root m =
    (fs.path_exists m ≡ false)
    × (m ≢ root)
    × (c : Text) × (parent : LocalPath) × (m ≡ c ∷ parent)
    × ((parent ≡ root) ⊎ (fs.path_exists parent ≡ true))

abbrev pub Above : LocalPath → LocalPath → Type 0
Above m path = (s : List Text) × (path ≡ s ++ m)

module _ (fs : FileSystem) (root : LocalPath) where
  or-false : (a b : Bool) → (a || b) ≡ false → (a ≡ false) × (b ≡ false)
  or-false a b h = ground arith

  or-true : (a b : Bool) → (a || b) ≡ true → (a ≡ true) ⊎ (b ≡ true)
  or-true a b h = ground arith

  TopsMissing-at :
      (c : Text) (parent : LocalPath)
      → (same_path (c ∷ parent) root || fs.path_exists (c ∷ parent)) ≡ false
      → (same_path parent root || fs.path_exists parent) ≡ true
      → TopsMissing fs root (c ∷ parent)
  TopsMissing-at c parent on top =
      let p = or-false (same_path (c ∷ parent) root) (fs.path_exists (c ∷ parent)) on in
      (
        p.1,
        λ e. cc (p.0, (same_path_iff (c ∷ parent) root).1 e),
        c,
        parent,
        refl,
        elim (or-true (same_path parent root) (fs.path_exists parent) top) [
          | inl same ↦ inl ((same_path_iff parent root).0 same)
          | inr exists ↦ inr exists
        ],
      )

  -- The loop either returns what it came with, at a candidate that is the root or exists, or
  -- finds the top of what is missing above the candidate.
  missing_loop_found :
      (nearest : Option LocalPath) (path m : LocalPath)
      → missing_loop fs root nearest path ≡ some m
      → ((nearest ≡ some m) × ((same_path path root || fs.path_exists path) ≡ true))
        ⊎ (TopsMissing fs root m × Above m path)
  unfolding missing_loop
  missing_loop_found nearest [] m h = ground arith
  missing_loop_found nearest (c ∷ []) m h = ground arith
  missing_loop_found nearest (c ∷ d ∷ up) m h =
      elim (Bool-cases (same_path (c ∷ d ∷ up) root || fs.path_exists (c ∷ d ∷ up))) [
        | inl stop ↦ inl (rw stop at h, stop)
        | inr on ↦ elim (Bool-cases (same_path (d ∷ up) root || fs.path_exists (d ∷ up))) [
          | inl top ↦ inr (at_top on top (ground arith))
          | inr more ↦ elim (missing_loop_found (some (c ∷ d ∷ up)) (d ∷ up) m (ground arith)) [
            | inl (_, e) ↦ cc
            | inr (t, (s, e)) ↦ inr (t, (c ∷ s, ap (λ (z : List Text). c ∷ z) e))
          ]
        ]
      ]
    where
      at_top :
          (same_path (c ∷ d ∷ up) root || fs.path_exists (c ∷ d ∷ up)) ≡ false
          → (same_path (d ∷ up) root || fs.path_exists (d ∷ up)) ≡ true
          → ◌≡◌ {A = LocalPath} (c ∷ d ∷ up) m
          → TopsMissing fs root m × Above m (c ∷ d ∷ up)
      at_top on top e = (subst (TopsMissing fs root) e (TopsMissing-at c (d ∷ up) on top), ([], e))

  from_none :
      (path m : LocalPath)
      → missing_loop fs root none path ≡ some m
      → TopsMissing fs root m × Above m path
  from_none path m h = elim (missing_loop_found none path m h) [
    | inl (e, _) ↦ cc
    | inr found ↦ found
  ]

  -- What the search finds is a directory at or above the local path that does not exist, is not the
  -- root, and whose parent is the root or exists.
  pub nearest_missing_directory-TopsMissing :
      (path m : LocalPath)
      → nearest_missing_directory fs root path ≡ some m
      → TopsMissing fs root m × Above m path
  unfolding nearest_missing_directory
  nearest_missing_directory-TopsMissing [] m h = from_none [] m (ground arith)
  nearest_missing_directory-TopsMissing (c ∷ []) m h = from_none (c ∷ []) m (ground arith)
  nearest_missing_directory-TopsMissing (c ∷ d ∷ up) m h =
      elim (Bool-cases (fs.is_dir (c ∷ d ∷ up))) [
        | inl dir ↦ from_none (c ∷ d ∷ up) m (rw dir at h)
        | inr other ↦
            let (t, (s, e)) = from_none (d ∷ up) m (rw other at h) in
            (t, (c ∷ s, ap (λ (z : List Text). c ∷ z) e))
      ]
