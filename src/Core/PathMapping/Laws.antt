-- ===== src/Core/PathMapping/Laws.antt =====
-- The form of a canonical remote path.
use mathlib.Core.List.{append_assoc}
use mathlib.Core.Path.{subst}
use ya_disk_sync.Base.{
  ℕ, ◌≡◌, refl, ap, ◌∙◌, ◌≢◌, inl, inr, true, false, not, Option, none, some, List, [], ◌∷◌, ◌++◌,
  arith, filter, All, Bool-cases,
}
use ya_disk_sync.Base.Result.{Result, ok, ◌>>=◌, >>=-eq-ok, try_map}
use ya_disk_sync.Base.Text.{
  Text, slash, strip_prefix, trim, trim_matches, is_empty, is_ascii_alphabetic, to_ascii_uppercase,
  is_slash,
}
use ya_disk_sync.Base.Text.Split.{split, join}
use ya_disk_sync.Core.PathMapping.{
  PathMappingError, remote_prefix, is_kept, sanitize_segment, build_remote_path, remote_body,
  remote_root_segments, sanitize_remote_path, local_segment, split_local_segments, drive_segments,
  absolute_segments, local_path_segments, mapped_remote_path, canonical_remote_path,
  is_windows_drive_path, is_separator,
}

-- A segment that the sanitizer leaves alone.
abbrev pub IsClean : Text → Type 0
IsClean w = (w ≢ []) × All (λ c. is_kept c ≡ true) w

-- `disk:/` and one clean segment or more, joined by slashes.
abbrev pub IsCanonical : Text → Type 0
IsCanonical q =
    (w : Text) × (ws : List Text) × All IsClean (w ∷ ws) × (q ≡ remote_prefix ++ join (w ∷ ws))

filter_kept : (s : Text) → All (λ c. is_kept c ≡ true) (filter is_kept s)
unfolding filter
filter_kept [] = tt
filter_kept (c ∷ s) = elim (Bool-cases (is_kept c)) [
  | inl e ↦ rw (e, e) (refl, filter_kept s)
  | inr n ↦ rw n (filter_kept s)
]

filter_kept_id : (s : Text) → All (λ c. is_kept c ≡ true) s → filter is_kept s ≡ s
unfolding filter
filter_kept_id [] h = refl
filter_kept_id (c ∷ s) h = rw (h.0, filter_kept_id s h.1)

sanitize_segment-eq-ok :
    (s w : Text) → sanitize_segment s ≡ ok w → (filter is_kept s ≡ w) × (is_empty w ≡ false)
unfolding sanitize_segment
sanitize_segment-eq-ok s w h = ground arith

ne-nil_of_is_empty : (w : Text) → is_empty w ≡ false → w ≢ []
unfolding is_empty
ne-nil_of_is_empty [] h = cc
ne-nil_of_is_empty (c ∷ w) h = λ e. cc

sanitize_segment-IsClean : (s w : Text) → sanitize_segment s ≡ ok w → IsClean w
sanitize_segment-IsClean s w h =
    let e = sanitize_segment-eq-ok s w h in (ne-nil_of_is_empty w e.1, rw e.0 at (filter_kept s))

-- A clean segment is kept as it is.
sanitize_segment_clean : (w : Text) → IsClean w → sanitize_segment w ≡ ok w
unfolding sanitize_segment is_empty
sanitize_segment_clean [] h = absurd (h.0 refl)
sanitize_segment_clean (c ∷ w) h = rw (filter_kept_id (c ∷ w) h.1)

module _ (f : Text → Result Text PathMappingError) where
  try_map-IsClean :
      ((s w : Text) → f s ≡ ok w → IsClean w)
      → (xs ws : List Text) → try_map f xs ≡ ok ws
      → All IsClean ws
  unfolding try_map
  try_map-IsClean clean [] ws h = ground arith
  try_map-IsClean clean (x ∷ xs) ws h =
      let p = >>=-eq-ok (f x) (λ y. try_map f xs >>= λ ys. ok (y ∷ ys)) ws h in
      let q = >>=-eq-ok (try_map f xs) (λ ys. ok (p.0 ∷ ys)) ws p.2 in
      let e : p.0 ∷ q.0 ≡ ws = cc q.2 in
      subst (All IsClean) e (clean x p.0 p.1, try_map-IsClean clean xs q.0 q.1)

  pub try_map_id : (xs : List Text) → All (λ x. f x ≡ ok x) xs → try_map f xs ≡ ok xs
  unfolding try_map
  try_map_id [] h = refl
  try_map_id (x ∷ xs) h = rw (h.0, try_map_id xs h.1)

remote_root_segments-IsClean :
    (p : Text) (ws : List Text) → remote_root_segments p ≡ ok ws → All IsClean ws
unfolding remote_root_segments
remote_root_segments-IsClean p ws h = go (strip_prefix (trim p) remote_prefix) h
  where
    go : (o : Option Text) → remote_body o ≡ ok ws → All IsClean ws
    go none e = cc
    go (some rest) e = elim (Bool-cases (is_empty (trim_matches is_slash rest))) [
      | inl y ↦ cc (rw y at e)
      | inr n ↦ try_map-IsClean sanitize_segment sanitize_segment-IsClean _ ws (rw n at e)
    ]

local_segment-IsClean : (s w : Text) → local_segment s ≡ ok w → IsClean w
unfolding local_segment
local_segment-IsClean s w h = sanitize_segment-IsClean s w (ground arith)

split_local_segments-IsClean :
    (p : Text) (ws : List Text) → split_local_segments p ≡ ok ws → All IsClean ws
unfolding split_local_segments
split_local_segments-IsClean p ws h =
    try_map-IsClean local_segment local_segment-IsClean
      (filter (λ segment. not (is_empty segment)) (split (λ c. is_separator c) p)) ws h

to_ascii_uppercase-kept :
    (c : ℕ) → is_ascii_alphabetic c ≡ true → is_kept (to_ascii_uppercase c) ≡ true
unfolding is_ascii_alphabetic is_kept to_ascii_uppercase
to_ascii_uppercase-kept c h = ground arith

drive_segments-IsClean :
    (t : Text) (ws : List Text)
    → is_windows_drive_path t ≡ true
    → drive_segments t ≡ ok ws
    → All IsClean ws
unfolding drive_segments is_windows_drive_path
drive_segments-IsClean (a ∷ b ∷ c ∷ rest) ws h e =
    let p =
      >>=-eq-ok (split_local_segments rest) (λ s. ok ((to_ascii_uppercase a ∷ []) ∷ s)) ws e in
    let q : (to_ascii_uppercase a ∷ []) ∷ p.0 ≡ ws = cc p.2 in
    subst (All IsClean) q (
      (λ z. cc, (to_ascii_uppercase-kept a (ground arith), tt)),
      split_local_segments-IsClean rest p.0 p.1,
    )
drive_segments-IsClean _ ws h e = cc

absolute_segments-IsClean :
    (t : Text) (ws : List Text) → absolute_segments t ≡ ok ws → All IsClean ws
unfolding absolute_segments
absolute_segments-IsClean [] ws e = cc
absolute_segments-IsClean (c ∷ rest) ws e = split_local_segments-IsClean rest ws (ground arith)

local_path_segments-IsClean :
    (p : Text) (ws : List Text) → local_path_segments p ≡ ok ws → All IsClean ws
unfolding local_path_segments
local_path_segments-IsClean p ws h = elim (Bool-cases (is_windows_drive_path (trim p))) [
  | inl drive ↦ drive_segments-IsClean (trim p) ws drive (ground arith)
  | inr other ↦ absolute_segments-IsClean (trim p) ws (ground arith)
]

build_remote_path-IsCanonical :
    (ws : List Text) (q : Text) → All IsClean ws → build_remote_path ws ≡ ok q → IsCanonical q
unfolding build_remote_path
build_remote_path-IsCanonical [] q h e = cc
build_remote_path-IsCanonical (w ∷ ws) q h e = (w, ws, h, cc)

sanitize_remote_path-IsCanonical : (p q : Text) → sanitize_remote_path p ≡ ok q → IsCanonical q
unfolding sanitize_remote_path
sanitize_remote_path-IsCanonical p q h =
    let r = >>=-eq-ok (remote_root_segments p) build_remote_path q h in
    build_remote_path-IsCanonical r.0 q (remote_root_segments-IsClean p r.0 r.1) r.2

All-append : (vs ws : List Text) → All IsClean vs → All IsClean ws → All IsClean (vs ++ ws)
All-append [] ws h k = k
All-append (v ∷ vs) ws h k = (h.0, All-append vs ws h.1 k)

mapped_remote_path-IsCanonical : (r l q : Text) → mapped_remote_path r l ≡ ok q → IsCanonical q
unfolding mapped_remote_path
mapped_remote_path-IsCanonical r l q h =
    let a =
      >>=-eq-ok (remote_root_segments r)
        (λ vs. local_path_segments l >>= λ ws. build_remote_path (vs ++ ws)) q h in
    let b = >>=-eq-ok (local_path_segments l) (λ ws. build_remote_path (a.0 ++ ws)) q a.2 in
    build_remote_path-IsCanonical (a.0 ++ b.0) q
      (All-append a.0 b.0 (remote_root_segments-IsClean r a.0 a.1)
        (local_path_segments-IsClean l b.0 b.1))
      b.2

-- Whenever the mapping of a root succeeds, with or without an override, the result is `disk:/`
-- followed by one segment or more joined by single slashes, each not empty and free of control
-- characters, of the characters < > : " | ? * \ and of slashes.
pub canonical_remote_path-IsCanonical :
    (remote_root local_path : Text) (value : Option Text) (q : Text)
    → canonical_remote_path remote_root local_path value ≡ ok q
    → IsCanonical q
unfolding canonical_remote_path
canonical_remote_path-IsCanonical r l none q h = mapped_remote_path-IsCanonical r l q h
canonical_remote_path-IsCanonical r l (some v) q h = elim (Bool-cases (is_empty (trim v))) [
  | inl blank ↦ mapped_remote_path-IsCanonical r l q (rw blank at h)
  | inr given ↦ sanitize_remote_path-IsCanonical v q (rw given at h)
]

is_kept-is_slash : (c : ℕ) → is_kept c ≡ true → is_slash c ≡ false
unfolding is_kept
is_kept-is_slash c h = ground arith

no_slashes : (w : Text) → All (λ c. is_kept c ≡ true) w → All (λ c. is_slash c ≡ false) w
no_slashes [] h = tt
no_slashes (c ∷ w) h = (is_kept-is_slash c h.0, no_slashes w h.1)

pub clean_no_slashes : (ws : List Text) → All IsClean ws → All (All (λ c. is_slash c ≡ false)) ws
clean_no_slashes [] h = tt
clean_no_slashes (w ∷ ws) h = (no_slashes w h.0.1, clean_no_slashes ws h.1)

pub clean_sanitized : (ws : List Text) → All IsClean ws → All (λ w. sanitize_segment w ≡ ok w) ws
clean_sanitized [] h = tt
clean_sanitized (w ∷ ws) h = (sanitize_segment_clean w h.0, clean_sanitized ws h.1)

-- The last character of a text.
abbrev pub EndsWell : Text → Type 0
EndsWell s = (t : Text) × (c : ℕ) × (s ≡ t ++ (c ∷ [])) × (is_slash c ≡ false)

EndsWell-clean : (w : Text) → w ≢ [] → All (λ c. is_slash c ≡ false) w → EndsWell w
EndsWell-clean [] h k = absurd (h refl)
EndsWell-clean (c ∷ []) h k = ([], c, refl, k.0)
EndsWell-clean (c ∷ d ∷ w) h k =
    let r = EndsWell-clean (d ∷ w) (λ e. cc) k.1 in
    (c ∷ r.0, r.1, ap (λ (t : Text). c ∷ t) r.2, r.3)

EndsWell-append : (a b : Text) → EndsWell b → EndsWell (a ++ b)
EndsWell-append a b (t, c, e, h) =
    (a ++ t, c, ap (λ (z : Text). a ++ z) e ∙ cc (append_assoc a t (c ∷ [])), h)

pub EndsWell-join : (w : Text) (ws : List Text) → All IsClean (w ∷ ws) → EndsWell (join (w ∷ ws))
unfolding join
EndsWell-join w [] h = EndsWell-clean w h.0.0 (no_slashes w h.0.1)
EndsWell-join w (v ∷ ws) h =
    EndsWell-append w (slash ∷ join (v ∷ ws))
      (EndsWell-append (slash ∷ []) _ (EndsWell-join v ws h.1))
