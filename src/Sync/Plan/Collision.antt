-- ===== src/Sync/Plan/Collision.antt =====
-- The check for collisions, `local_remote_collision`.
use ya_disk_sync.Base.{
  ◌≡◌, refl, ◌≢◌, ◌↔◌, inl, inr, none, List, [], ◌∷◌, arith, Option-cases, All, Pairwise,
}
use ya_disk_sync.Base.Text.{Text, ==_iff}
use ya_disk_sync.Scanner.{LocalFileEntry, LocalDirectoryEntry}
use ya_disk_sync.Sync.Plan.{seen_before, collision_loop, collision_entries, local_remote_collision}

abbrev pub Distinct : Text × Text → Text × Text → Type 0
Distinct a b = a.0 ≢ b.0

seen_before-none :
    (k : Text) (seen : List (Text × Text))
    → (seen_before k seen ≡ none) ↔ All (λ (e : Text × Text). e.0 ≢ k) seen
unfolding seen_before
seen_before-none k [] = (λ _. tt, λ _. refl)
seen_before-none k ((j, v) ∷ seen) = (
  λ h. ((λ e. ground (arith, (==_iff j k).1 e)), (seen_before-none k seen).0 (ground arith)),
  λ h. ground (arith, (==_iff j k).0, h.0, (seen_before-none k seen).1 h.1),
)

-- No entry has the key of one that was seen.
abbrev Fresh : List (Text × Text) → Text × Text → Type 0
Fresh seen e = All (λ (s : Text × Text). s.0 ≢ e.0) seen

first-Distinct :
    (a : Text × Text) (seen es : List (Text × Text))
    → All (Fresh (a ∷ seen)) es
    → All (Distinct a) es × All (Fresh seen) es
first-Distinct a seen [] h = (tt, tt)
first-Distinct a seen (e ∷ es) h =
    let (p, q) = first-Distinct a seen es h.1 in ((h.0.0, p), (h.0.1, q))

join-Distinct :
    (a : Text × Text) (seen es : List (Text × Text))
    → All (Distinct a) es
    → All (Fresh seen) es
    → All (Fresh (a ∷ seen)) es
join-Distinct a seen [] h k = tt
join-Distinct a seen (e ∷ es) h k = ((h.0, k.0), join-Distinct a seen es h.1 k.1)

collision_loop_sound :
    (seen es : List (Text × Text))
    → collision_loop seen es ≡ none
    → All (Fresh seen) es × Pairwise Distinct es
unfolding collision_loop
collision_loop_sound seen [] h = (tt, tt)
collision_loop_sound seen ((n, r) ∷ es) h = elim (Option-cases (seen_before n seen)) [
  | inl new ↦
      let (p, q) = collision_loop_sound ((n, r) ∷ seen) es (ground arith) in
      let (a, b) = first-Distinct (n, r) seen es p in (((seen_before-none n seen).0 new, b), (a, q))
  | inr (previous, old) ↦ absurd (ground arith)
]

collision_loop_complete :
    (seen es : List (Text × Text))
    → All (Fresh seen) es
    → Pairwise Distinct es
    → collision_loop seen es ≡ none
unfolding collision_loop
collision_loop_complete seen [] h k = refl
collision_loop_complete seen ((n, r) ∷ es) h k =
    let new = (seen_before-none n seen).1 h.0 in
    let rest =
      collision_loop_complete ((n, r) ∷ seen) es (join-Distinct (n, r) seen es k.0 h.1) k.1 in
    ground (arith, new, rest)

All-Fresh : (es : List (Text × Text)) → All (Fresh []) es
All-Fresh [] = tt
All-Fresh (e ∷ es) = (tt, All-Fresh es)

-- The check reports no collision exactly when the normalized remote paths of all directories and
-- files of the root are pairwise different.
pub local_remote_collision_iff :
    (directories : List LocalDirectoryEntry) (files : List LocalFileEntry)
    → (local_remote_collision directories files ≡ none)
      ↔ Pairwise Distinct (collision_entries directories files)
unfolding local_remote_collision
local_remote_collision_iff ds fs = (
  λ h. (collision_loop_sound [] (collision_entries ds fs) h).1,
  collision_loop_complete [] (collision_entries ds fs) (All-Fresh (collision_entries ds fs)),
)
