-- ===== src/Sync/Deletes/Prefixes.antt =====
-- The directories above a surplus resource: what the search for a missing one finds.
use mathlib.Core.Path.{subst}
use mathlib.Core.List.{append_assoc}
use ya_disk_sync.Base.{
  ◌≡◌, refl, sym, ap, ◌∙◌, inl, inr, false, not, some, List, [], ◌∷◌, ◌++◌, arith, Bool-cases, All,
  filter,
}
use ya_disk_sync.Base.Text.{
  Text, slash, is_slash, is_empty, Within, Within-trans, strip_prefix-append, contains,
  trim_start_matches,
}
use ya_disk_sync.Base.Text.Split.{split, join, join-split, split-cons}
use ya_disk_sync.Sync.Inventory.{trimmed_root, relative_remote_path}
use ya_disk_sync.Sync.Deletes.{
  has_live_descendants, missing_prefix_loop, top_missing_remote_directory_prefix, all_but_last,
  remote_segments,
}

-- The path that walks from a prefix down the segments.
extend : Text → List Text → Text
extend p [] = p
extend p (w ∷ ws) = extend (p ++ (slash ∷ w)) ws

extend-Within : (p : Text) (ws : List Text) → Within (extend p ws) p
unfolding extend
extend-Within p [] = inl refl
extend-Within p (w ∷ ws) = Within-trans _ _ _ (extend-Within (p ++ (slash ∷ w)) ws) (inr (w, refl))

extend-join : (p w : Text) (ws : List Text) → extend p (w ∷ ws) ≡ p ++ (slash ∷ join (w ∷ ws))
unfolding extend join
extend-join p w [] = refl
extend-join p w (v ∷ ws) =
    extend-join (p ++ (slash ∷ w)) v ws ∙ append_assoc p (slash ∷ w) (slash ∷ join (v ∷ ws))

-- A missing prefix that the search finds is the path walked, or a directory above it.
missing_prefix_loop-above :
    (known : List Text) (p : Text) (ws : List Text) (d : Text)
    → missing_prefix_loop known p (all_but_last ws) ≡ some d
    → Within (extend p ws) d
unfolding missing_prefix_loop all_but_last extend
missing_prefix_loop-above known p [] d h = cc
missing_prefix_loop-above known p (w ∷ []) d h = cc
missing_prefix_loop-above known p (w ∷ v ∷ ws) d h =
    let deeper = missing_prefix_loop-above known (p ++ (slash ∷ w)) (v ∷ ws) d in
    elim (Bool-cases (contains known (p ++ (slash ∷ w)))) [
      | inl live ↦ deeper (rw live at h)
      | inr unknown ↦
          elim (Bool-cases (has_live_descendants known ((p ++ (slash ∷ w)) ++ (slash ∷ [])))) [
            | inl inhabited ↦ deeper (ground arith)
            | inr dead ↦
                let e : p ++ (slash ∷ w) ≡ d = ground arith in
                subst (Within (extend (p ++ (slash ∷ w)) (v ∷ ws))) e
                  (extend-Within (p ++ (slash ∷ w)) (v ∷ ws))
          ]
    ]

-- No piece between slashes is empty.
abbrev pub IsPlain : Text → Type 0
IsPlain relative = All (λ w. is_empty w ≡ false) (split is_slash relative)

plain_kept :
    (ws : List Text)
    → All (λ w. is_empty w ≡ false) ws
    → filter (λ segment. not (is_empty segment)) ws ≡ ws
unfolding filter
plain_kept [] h = refl
plain_kept (w ∷ ws) h = rw (h.0, plain_kept ws h.1)

plain_start : (relative : Text) → IsPlain relative → trim_start_matches is_slash relative ≡ relative
unfolding trim_start_matches split is_empty
plain_start [] h = refl
plain_start (c ∷ s) h = elim (Bool-cases (is_slash c)) [
  | inr other ↦ rw other
  | inl cut ↦ cc ((rw cut at h).0)
]

trim_start_slash :
    (s : Text) → trim_start_matches is_slash (slash ∷ s) ≡ trim_start_matches is_slash s
unfolding trim_start_matches
trim_start_slash s = refl

pub relative_remote_path_plain :
    (root relative : Text)
    → IsPlain relative
    → relative_remote_path root (trimmed_root root ++ (slash ∷ relative)) ≡ relative
unfolding relative_remote_path
relative_remote_path_plain root relative h =
    rw (strip_prefix-append (trimmed_root root) (slash ∷ relative), relative_remote_path)
      (trim_start_slash relative ∙ plain_start relative h)

pub remote_segments_plain :
    (root relative : Text)
    → IsPlain relative
    → remote_segments root (trimmed_root root ++ (slash ∷ relative)) ≡ split is_slash relative
unfolding remote_segments
remote_segments_plain root relative h =
    rw (relative_remote_path_plain root relative h) (plain_kept (split is_slash relative) h)

-- What is missing above a plain path is a directory above it, or the path.
pub top_missing-above :
    (root relative : Text) (known : List Text) (d : Text)
    → IsPlain relative
    → top_missing_remote_directory_prefix root (trimmed_root root ++ (slash ∷ relative)) known
      ≡ some d
    → Within (trimmed_root root ++ (slash ∷ relative)) d
unfolding top_missing_remote_directory_prefix
top_missing-above root relative known d h e =
    let (w, ws, k) = split-cons is_slash relative in
    let e' : missing_prefix_loop known (trimmed_root root) (all_but_last (split is_slash relative))
        ≡ some d =
      rw (remote_segments_plain root relative h) at e in
    let walked : extend (trimmed_root root) (split is_slash relative)
        ≡ trimmed_root root ++ (slash ∷ relative) =
      rw k (
        extend-join (trimmed_root root) w ws
        ∙ ap (λ (z : Text). trimmed_root root ++ (slash ∷ z))
            (ap join (sym k) ∙ join-split relative)) in
    subst (λ (z : Text). Within z d) walked
      (missing_prefix_loop-above known (trimmed_root root) (split is_slash relative) d e')
