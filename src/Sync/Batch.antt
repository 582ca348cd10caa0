-- ===== src/Sync/Batch.antt =====
-- crates/yds-sync/src/lib.rs, `take_upload_batch`: the next uploads to run at once, at most one of
-- them large.
use ya_disk_sync.Base.{
  sym, ap, ◌∙◌, ℕ, suc, ◌+◌, ◌≤◌, ◌<◌, ◌≡◌, refl, inl, inr, Bool, true, false, ◌&&◌, ◌||◌, not,
  List, [], ◌∷◌, ◌++◌, arith, ltb, leb, if◌then◌else◌, length, length-append, Bool-cases,
}
use mathlib.Core.Path.{subst}
use mathlib.Core.List.{append-nil, append_assoc}
use ya_disk_sync.Scanner.{LocalFileEntry}

abbrev pub Upload : Type 0
Upload = LocalFileEntry × Bool

unfoldable pub is_large : ℕ → Upload → Bool
is_large large_threshold u = leb large_threshold u.0.size_bytes

-- The loop over `pending`, with `selected`, `deferred` and `large_used`.
batch_loop : ℕ → ℕ → List Upload → List Upload → List Upload → Bool → List Upload × List Upload
batch_loop limit threshold [] selected deferred large_used = (selected, deferred)
batch_loop limit threshold (u ∷ pending) selected deferred large_used =
    let taken = ltb (length selected) limit && (not (is_large threshold u) || not large_used) in
    batch_loop limit threshold pending (if taken then selected ++ u ∷ [] else selected)
      (if taken then deferred else deferred ++ u ∷ [])
      (large_used || (taken && is_large threshold u))

-- The batch, and what is left pending.
unfoldable pub take_upload_batch : List Upload → ℕ → ℕ → List Upload × List Upload
unfolding batch_loop
take_upload_batch pending limit large_threshold =
    batch_loop limit large_threshold pending [] [] false

unfoldable pub count_large : ℕ → List Upload → ℕ
count_large threshold [] = 0
count_large threshold (u ∷ us) =
    if is_large threshold u then suc (count_large threshold us) else count_large threshold us

count_large-append :
    (threshold : ℕ) (us vs : List Upload)
    → count_large threshold (us ++ vs) ≡ count_large threshold us + count_large threshold vs
unfolding count_large
count_large-append threshold [] vs = omega arith
count_large-append threshold (u ∷ us) vs = ground (arith, count_large-append threshold us vs)

-- The pending list is the two lists, merged with the order of each kept.
pub data Interleaved : List Upload → List Upload → List Upload → Type 0 where
  done : Interleaved [] [] []
  take_left :
      (u : Upload) {us vs ws : List Upload}
      → Interleaved us vs ws
      → Interleaved (u ∷ us) vs (u ∷ ws)
  take_right :
      (u : Upload) {us vs ws : List Upload}
      → Interleaved us vs ws
      → Interleaved us (u ∷ vs) (u ∷ ws)

-- What the loop adds to the two lists.
batch_loop_parts :
    (limit threshold : ℕ) (pending selected deferred : List Upload) (large_used : Bool)
    → (us vs : List Upload) × Interleaved us vs pending
      × (batch_loop limit threshold pending selected deferred large_used
          ≡ (selected ++ us, deferred ++ vs))
unfolding batch_loop
batch_loop_parts limit threshold [] selected deferred large_used =
    ([], [], done, rw (append-nil, append-nil))
batch_loop_parts limit threshold (u ∷ pending) selected deferred large_used =
    elim (Bool-cases
      (ltb (length selected) limit && (not (is_large threshold u) || not large_used))) [
        | inl taken ↦
            let (us, vs, i, e) =
              batch_loop_parts limit threshold pending (selected ++ u ∷ []) deferred
                (large_used || is_large threshold u) in
            (
              u ∷ us,
              vs,
              take_left u i,
              rw taken (
                  e
                  ∙ ap (λ (z : List Upload). (z, deferred ++ vs))
                      (append_assoc selected (u ∷ []) us)),
            )
        | inr left ↦
            let (us, vs, i, e) =
              batch_loop_parts limit threshold pending selected (deferred ++ u ∷ [])
                (large_used || false) in
            (
              us,
              u ∷ vs,
              take_right u i,
              rw left (
                  e
                  ∙ ap (λ (z : List Upload). (selected ++ us, z))
                      (append_assoc deferred (u ∷ []) vs)),
            )
      ]

-- The room in the batch and the one large file are respected.
batch_loop_bounds :
    (limit threshold : ℕ) (pending selected deferred : List Upload) (large_used : Bool)
    → length selected ≤ limit
    → count_large threshold selected ≤ (if large_used then 1 else 0)
    → (length (batch_loop limit threshold pending selected deferred large_used).0 ≤ limit)
      × (count_large threshold (batch_loop limit threshold pending selected deferred large_used).0
          ≤ 1)
unfolding batch_loop count_large
batch_loop_bounds limit threshold [] selected deferred large_used h k = ground arith
batch_loop_bounds limit threshold (u ∷ pending) selected deferred large_used h k =
    let taken = ltb (length selected) limit && (not (is_large threshold u) || not large_used) in
    batch_loop_bounds limit threshold pending (if taken then selected ++ u ∷ [] else selected)
      (if taken then deferred else deferred ++ u ∷ [])
      (large_used || (taken && is_large threshold u))
      (ground (arith, length-append selected (u ∷ [])))
      (ground (arith, count_large-append threshold selected (u ∷ [])))

-- The batch and what stays pending are together the uploads that were pending, each list in the old
-- order; the batch has at most `limit` uploads, and at most one of them is large.
pub take_upload_batch_bounds :
    (pending : List Upload) (limit large_threshold : ℕ)
    → Interleaved
        (take_upload_batch pending limit large_threshold).0
        (take_upload_batch pending limit large_threshold).1
        pending
      × (length (take_upload_batch pending limit large_threshold).0 ≤ limit)
      × (count_large large_threshold (take_upload_batch pending limit large_threshold).0 ≤ 1)
unfolding take_upload_batch
take_upload_batch_bounds pending limit threshold =
    let (us, vs, i, e) = batch_loop_parts limit threshold pending [] [] false in
    let (b, c) =
      batch_loop_bounds limit threshold pending [] [] false (omega arith)
        (unfold count_large in omega arith) in
    (subst (λ (z : List Upload × List Upload). Interleaved z.0 z.1 pending) (sym e) i, b, c)

Interleaved-length :
    {us vs ws : List Upload} → Interleaved us vs ws → length us + length vs ≡ length ws
Interleaved-length done = omega arith
Interleaved-length (take_left u i) = omega (arith, Interleaved-length i)
Interleaved-length (take_right u i) = omega (arith, Interleaved-length i)

first_taken :
    (u : Upload) (pending : List Upload) (limit threshold : ℕ)
    → 0 < limit
    → batch_loop limit threshold (u ∷ pending) [] [] false
      ≡ batch_loop limit threshold pending (u ∷ []) [] (is_large threshold u)
unfolding batch_loop
first_taken u pending limit threshold h = elim (Bool-cases (is_large threshold u)) [
  | inl large ↦ rw (large, room) refl
  | inr small ↦ rw (small, room) refl
]
  where
    room : ltb 0 limit ≡ true
    room = ground arith

-- With room for one upload the head of the queue is always taken first, so each batch is not empty
-- and leaves fewer uploads pending.
pub take_upload_batch_progress :
    (u : Upload) (pending : List Upload) (limit large_threshold : ℕ)
    → 0 < limit
    → ((rest : List Upload) × ((take_upload_batch (u ∷ pending) limit large_threshold).0
          ≡ u ∷ rest))
      × (length (take_upload_batch (u ∷ pending) limit large_threshold).1 < length (u ∷ pending))
unfolding take_upload_batch
take_upload_batch_progress u pending limit threshold h =
    let (us, vs, i, e) =
      batch_loop_parts limit threshold pending (u ∷ []) [] (is_large threshold u) in
    let all = first_taken u pending limit threshold h ∙ e in
    (
      (us, ap (λ (z : List Upload × List Upload). z.0) all),
      omega (arith, Interleaved-length i, ap (λ (z : List Upload × List Upload). length z.1) all),
    )
