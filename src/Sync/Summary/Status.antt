-- ===== src/Sync/Summary/Status.antt =====
-- When a run counts as succeeded.
use ya_disk_sync.Base.{
  ℕ, ◌≡◌, refl, ◌∙◌, ◌<◌, false, List, [], ◌∷◌, arith, any, All, ◌++◌, ◌+◌, ◌^◌, ◌↔◌,
}
use ya_disk_sync.Base.Words.{add_i64, is_positive_i64}
use ya_disk_sync.State.{SyncRunStatus, SyncRunSummary}
use ya_disk_sync.Sync.Summary.{
  RootSyncSummary, is_failed, is_partial, status_from_summary, add_root_summary, empty_summary,
}

-- The roots' summaries added to a total, as the run does one by one.
unfoldable pub sum_roots : SyncRunSummary → List RootSyncSummary → SyncRunSummary
sum_roots total [] = total
sum_roots total (r ∷ rs) = sum_roots (add_root_summary total r) rs

-- The plain sum of the roots' failures.
unfoldable pub total_failed : List RootSyncSummary → ℕ
total_failed [] = 0
total_failed (r ∷ rs) = r.failed_files + total_failed rs

failed-add_root_summary :
    (total : SyncRunSummary) (r : RootSyncSummary)
    → total.failed_files + r.failed_files < 2 ^ 63
    → (add_root_summary total r).failed_files ≡ total.failed_files + r.failed_files
unfolding add_root_summary
failed-add_root_summary total r h = omega arith

failed-sum_roots :
    (total : SyncRunSummary) (rs : List RootSyncSummary)
    → total.failed_files + total_failed rs < 2 ^ 63
    → (sum_roots total rs).failed_files ≡ total.failed_files + total_failed rs
unfolding sum_roots total_failed
failed-sum_roots total [] h = omega arith
failed-sum_roots total (r ∷ rs) h =
    let one = failed-add_root_summary total r (omega arith) in
    failed-sum_roots (add_root_summary total r) rs (omega (arith, one)) ∙ omega (arith, one)

-- A root that neither failed nor was skipped, with no failed item.
abbrev pub IsClean : RootSyncSummary → Type 0
IsClean r = (is_failed r.status ≡ false) × (is_partial r.status ≡ false) × (r.failed_files ≡ 0)

IsClean-sound :
    (rs : List RootSyncSummary)
    → any (λ (r : RootSyncSummary). is_failed r.status) rs ≡ false
    → any (λ (r : RootSyncSummary). is_partial r.status) rs ≡ false
    → total_failed rs ≡ 0
    → All IsClean rs
unfolding any total_failed
IsClean-sound [] h k z = tt
IsClean-sound (r ∷ rs) h k z = (
  (ground arith, ground arith, omega arith),
  IsClean-sound rs (ground arith) (ground arith) (omega arith),
)

clean_complete :
    (rs : List RootSyncSummary)
    → All IsClean rs
    → (any (λ (r : RootSyncSummary). is_failed r.status) rs ≡ false)
      × (any (λ (r : RootSyncSummary). is_partial r.status) rs ≡ false)
      × (total_failed rs ≡ 0)
unfolding any total_failed
clean_complete [] h = (refl, refl, refl)
clean_complete (r ∷ rs) h =
    let (a, b, c) = clean_complete rs h.1 in
    (ground (arith, a, h.0.0), ground (arith, b, h.0.1), omega (arith, c, h.0.2))

succeeded_parts :
    (summary : SyncRunSummary) (roots : List RootSyncSummary)
    → status_from_summary summary roots ≡ SyncRunStatus.succeeded
    → (any (λ (r : RootSyncSummary). is_failed r.status) roots ≡ false)
      × (any (λ (r : RootSyncSummary). is_partial r.status) roots ≡ false)
      × (is_positive_i64 summary.failed_files ≡ false)
unfolding status_from_summary
succeeded_parts summary roots h = ground arith

not_positive : (n : ℕ) → n < 2 ^ 63 → is_positive_i64 n ≡ false → n ≡ 0
unfolding is_positive_i64
not_positive n h k = ground arith

pub status_from_summary_iff :
    (summary : SyncRunSummary) (roots : List RootSyncSummary)
    → summary.failed_files ≡ (sum_roots empty_summary roots).failed_files
    → total_failed roots < 2 ^ 63
    → (status_from_summary summary roots ≡ SyncRunStatus.succeeded) ↔ All IsClean roots
unfolding status_from_summary is_positive_i64
status_from_summary_iff summary roots same h =
    let sum = failed-sum_roots empty_summary roots (omega (arith, h)) in
    (
      λ s.
          let (a, b, c) = succeeded_parts summary roots s in
          IsClean-sound roots a b (
            omega
              (arith, not_positive summary.failed_files (omega (arith, sum, same)) c, sum, same)),
      λ clean.
          let (a, b, c) = clean_complete roots clean in
          let none_failed : summary.failed_files ≡ 0 = omega (arith, sum, same, c) in
          rw (a, b, none_failed),
    )

-- A root after the others.
pub failed-sum_roots-snoc :
    (total : SyncRunSummary) (roots : List RootSyncSummary) (r : RootSyncSummary)
    → (sum_roots total (roots ++ r ∷ [])).failed_files
      ≡ add_i64 (sum_roots total roots).failed_files r.failed_files
unfolding sum_roots add_root_summary
failed-sum_roots-snoc total [] r = refl
failed-sum_roots-snoc total (x ∷ roots) r = failed-sum_roots-snoc (add_root_summary total x) roots r
