-- ===== src/Core/PathMapping/Fixed.antt =====
-- Canonical paths under the sanitizer, and local segments that it changes.
use mathlib.Core.List.{reverse-append, reverse-reverse}
use ya_disk_sync.Base.{
  some, ℕ, ◌≡◌, refl, ap, sym, ◌∙◌, false, List, [], ◌∷◌, ◌++◌, arith, All, Option,
}
use ya_disk_sync.Base.Result.{ok, ◌>>=◌}
use ya_disk_sync.Base.Text.{
  Text, strip_prefix, trim, trim_matches, trim_start_matches, trim_end_matches, is_empty, is_slash,
}
use ya_disk_sync.Base.Text.Split.{join, split-join}
use ya_disk_sync.Core.PathMapping.{
  remote_prefix, is_kept, sanitize_segment, build_remote_path, remote_body, remote_root_segments,
  sanitize_remote_path, local_segment, canonical_remote_path, detect_remote_path_collision_key,
}
use ya_disk_sync.Core.PathMapping.Laws.{
  IsClean, IsCanonical, EndsWell, EndsWell-join, clean_no_slashes, clean_sanitized, try_map_id,
  canonical_remote_path-IsCanonical,
}

trim_end_matches_id : (s : Text) → EndsWell s → trim_end_matches is_slash s ≡ s
unfolding trim_end_matches
trim_end_matches_id s (t, c, e, h) =
    rw (e, reverse-append t (c ∷ []))
      (rw h (rw (← reverse-append t (c ∷ [])) (reverse-reverse (t ++ (c ∷ [])))))

-- The text of clean segments starts with a character that is no slash.
trim_start_join :
    (w : Text) (ws : List Text)
    → All IsClean (w ∷ ws)
    → trim_start_matches is_slash (join (w ∷ ws)) ≡ join (w ∷ ws)
unfolding trim_start_matches join
trim_start_join [] ws h = absurd (h.0.0 refl)
trim_start_join (c ∷ w) [] h = rw ((clean_no_slashes ((c ∷ w) ∷ []) h).0.0)
trim_start_join (c ∷ w) (v ∷ ws) h = rw ((clean_no_slashes ((c ∷ w) ∷ v ∷ ws) h).0.0)

is_empty-join :
    (w : Text) (ws : List Text) → All IsClean (w ∷ ws) → is_empty (join (w ∷ ws)) ≡ false
unfolding is_empty join
is_empty-join [] ws h = absurd (h.0.0 refl)
is_empty-join (c ∷ w) [] h = refl
is_empty-join (c ∷ w) (v ∷ ws) h = refl

remote_body-join :
    (w : Text) (ws : List Text)
    → All IsClean (w ∷ ws)
    → remote_body (some (join (w ∷ ws))) ≡ ok (w ∷ ws)
unfolding remote_body trim_matches
remote_body-join w ws h =
    rw (trim_start_join w ws h, trim_end_matches_id _ (EndsWell-join w ws h), is_empty-join w ws h)
      (rw (split-join w ws (clean_no_slashes (w ∷ ws) h))
        (try_map_id sanitize_segment (w ∷ ws) (clean_sanitized (w ∷ ws) h)))

remote_root_segments_canonical :
    (q : Text) (w : Text) (ws : List Text)
    → All IsClean (w ∷ ws)
    → trim q ≡ remote_prefix ++ join (w ∷ ws)
    → remote_root_segments q ≡ ok (w ∷ ws)
unfolding remote_root_segments
remote_root_segments_canonical q w ws h t =
    ap (λ (z : Text). remote_body (strip_prefix z remote_prefix)) t ∙ remote_body-join w ws h

sanitize_canonical : (q : Text) → IsCanonical q → trim q ≡ q → sanitize_remote_path q ≡ ok q
unfolding sanitize_remote_path build_remote_path
sanitize_canonical q (w, ws, h, e) t =
    ap (λ r. r >>= build_remote_path) (remote_root_segments_canonical q w ws h (t ∙ e))
    ∙ ap ok (sym e)

-- The canonical path of a root, unless white space ends it, is a fixed point of the sanitizer, and
-- its collision key is its own lower case.
pub canonical_remote_path_fixed :
    (to_lowercase : Text → Text) (remote_root local_path : Text) (value : Option Text) (q : Text)
    → canonical_remote_path remote_root local_path value ≡ ok q
    → trim q ≡ q
    → (sanitize_remote_path q ≡ ok q)
      × (detect_remote_path_collision_key to_lowercase q ≡ ok (to_lowercase q))
unfolding detect_remote_path_collision_key
canonical_remote_path_fixed to_lowercase r l value q h t =
    let e = sanitize_canonical q (canonical_remote_path-IsCanonical r l value q h) t in
    (e, ap (λ z. z >>= λ path. ok (to_lowercase path)) e)

-- A local segment of two dots with one character between them that the sanitizer drops, such as
-- `.:.`, passes the check against relative segments and is mapped to the segment `..`.
pub local_segment_hidden_parent :
    (c : ℕ) → is_kept c ≡ false → local_segment (b'.' ∷ c ∷ b'.' ∷ []) ≡ ok (b'.' ∷ b'.' ∷ [])
unfolding local_segment is_kept
local_segment_hidden_parent c h = ground arith
