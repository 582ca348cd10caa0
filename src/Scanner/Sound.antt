-- ===== src/Scanner/Sound.antt =====
-- The files of a scan report.
use mathlib.Core.Path.{subst}
use ya_disk_sync.Sync.LivePlan.{same_path}
use ya_disk_sync.Base.{
  ◌≡◌, refl, sym, ap, inl, inr, Bool, true, false, Option, none, some, List, [], ◌∷◌, ◌++◌, All,
  All-of_In, In_of_All, In-sort_by, Bool-cases, if◌then◌else◌,
}
use ya_disk_sync.Base.Result.{Result, ok, err, ◌>>=◌, >>=-eq-ok}
use ya_disk_sync.Base.Text.{Text, text}
use ya_disk_sync.Core.Exclusions.{ExclusionDecision, ExclusionError, ExclusionMatcher, new_matcher}
use ya_disk_sync.Scanner.{LocalPath, LocalDirectoryEntry, ScanReport}
use ya_disk_sync.State.{FileStateRecord}
use ya_disk_sync.Scanner.Entries.{
  ScanOptions, ScanRoot, ScannerError, ScanWorld, ScanContext, exclusion_decision,
  is_skippable_scan_error,
}
use ya_disk_sync.Scanner.FileEntry.{FileEntryResult, file_found, file_skipped}
use ya_disk_sync.Scanner.Walk.{
  WalkEntry, Visits, finished, visit, walk_error, WalkState, go_on, skip, empty_report,
  push_file_result, push_directory_result, handle_included, handle_excluded, handle_relative,
  handle_walk_entry, run_walk, sort_deterministically, scan_context, scan_root, relative_path_of,
  push_failed, failed_item,
}
use ya_disk_sync.Scanner.SoundFiles.{IsSound, IsFine, file_entry-IsFine}

All-snoc :
    {A : Type 0} (P : A → Type 0) (xs : List A) (x : A) → All P xs → P x → All P (xs ++ x ∷ [])
All-snoc P [] x h k = (k, tt)
All-snoc P (y ∷ xs) x h k = (h.0, All-snoc P xs x h.1 k)

module _ (world : ScanWorld) (context : ScanContext) where
  -- Every file of the report is sound.
  AllSound : ScanReport → Type 0
  AllSound report = All (IsSound world context) report.files

  AllSound-if :
      (b : Bool) (r s : ScanReport)
      → (b ≡ true → AllSound r)
      → (b ≡ false → AllSound s)
      → AllSound (if b then r else s)
  AllSound-if true r s h k = h refl
  AllSound-if false r s h k = k refl

  push_file_result-AllSound :
      (entry : WalkEntry) (relative : Text) (report : ScanReport)
      (r : Result FileEntryResult ScannerError)
      → IsFine world context r
      → AllSound report
      → AllSound (push_file_result world context entry relative report r)
  unfolding AllSound push_file_result
  push_file_result-AllSound entry relative report (ok (file_found f)) h k =
      All-snoc (IsSound world context) report.files f k h
  push_file_result-AllSound entry relative report (ok (file_skipped s)) h k = k
  push_file_result-AllSound entry relative report (err e) h k =
      AllSound-if (is_skippable_scan_error e) _ _ (λ c. k) (λ c. k)

  push_directory_result-AllSound :
      (entry : WalkEntry) (relative : Text) (report : ScanReport)
      (r : Result LocalDirectoryEntry ScannerError)
      → AllSound report
      → AllSound (push_directory_result world context entry relative report r)
  unfolding AllSound push_directory_result
  push_directory_result-AllSound entry relative report (ok d) k = k
  push_directory_result-AllSound entry relative report (err e) k = k

  handle_included-AllSound :
      (entry : WalkEntry) (relative : Text) (report : ScanReport)
      → exclusion_decision world context entry.path relative entry.is_dir ≡ none
      → AllSound report
      → AllSound (handle_included world context entry relative report)
  unfolding handle_included
  handle_included-AllSound entry relative report h k =
      AllSound-if entry.is_dir _ _ (λ d. push_directory_result-AllSound entry relative report _ k)
        (λ d.
          AllSound-if entry.is_file _ _
            (λ f.
              push_file_result-AllSound entry relative report _
                (file_entry-IsFine world context entry.path relative
                  (subst (λ z. exclusion_decision world context entry.path relative z ≡ none) d h))
                k)
            (λ f. k))

  handle_relative-AllSound :
      (entry : WalkEntry) (relative : Text) (report : ScanReport)
      → AllSound report
      → AllSound (handle_relative world context entry relative report).1
  unfolding AllSound handle_relative handle_excluded
  handle_relative-AllSound entry relative report k =
      go (exclusion_decision world context entry.path relative entry.is_dir) refl
    where
      go :
          (o : Option ExclusionDecision)
          → exclusion_decision world context entry.path relative entry.is_dir ≡ o
          → AllSound
              (elim o as (λ z. WalkState × ScanReport) [
                | some decision ↦ (
                  if entry.is_dir then skip else go_on,
                  handle_excluded world context entry relative report decision,
                )
                | none ↦ (go_on, handle_included world context entry relative report)
              ]).1
      go none e = handle_included-AllSound entry relative report e k
      go (some decision) e = k

  handle_walk_entry-AllSound :
      (message : Text) (entry : WalkEntry) (report : ScanReport)
      → AllSound report
      → AllSound (handle_walk_entry world context message entry report).1
  unfolding AllSound handle_walk_entry
  handle_walk_entry-AllSound message entry report k =
      elim (Bool-cases (same_path entry.path context.root.local_path)) [
        | inl c ↦ rw c k
        | inr c ↦ rw c (go (relative_path_of context.root.local_path entry.path))
      ]
    where
      go :
          (o : Option Text)
          → AllSound
              (elim o as (λ z. WalkState × ScanReport) [
                | none ↦ (
                  go_on,
                  push_failed report
                      (failed_item world context entry.path [] none (text "relative_path") message),
                )
                | some relative ↦ handle_relative world context entry relative report
              ]).1
      go none = k
      go (some relative) = handle_relative-AllSound entry relative report k

  run_walk-AllSound :
      (message : Text) (visits : Visits) (report : ScanReport)
      → AllSound report
      → AllSound (run_walk world context message visits report)
  unfolding AllSound run_walk
  run_walk-AllSound message finished report k = k
  run_walk-AllSound message (walk_error e after) report k = run_walk-AllSound message after _ k
  run_walk-AllSound message (visit entry inside after) report k =
      run_walk-AllSound message after _ (
        go (handle_walk_entry world context message entry report)
          (handle_walk_entry-AllSound message entry report k) (run_walk-AllSound message inside))
    where
      go :
          (o : WalkState × ScanReport)
          → AllSound o.1
          → ((r : ScanReport) → AllSound r → AllSound (run_walk world context message inside r))
          → AllSound (elim o.0 [ go_on ↦ run_walk world context message inside o.1 | skip ↦ o.1 ])
      go (go_on, r) h inside_sound = inside_sound r h
      go (skip, r) h inside_sound = h

  empty-AllSound : (id : Text) → AllSound (empty_report id)
  unfolding AllSound empty_report
  empty-AllSound id = tt

  sorted-AllSound :
      (report : ScanReport) → AllSound report → AllSound (sort_deterministically report)
  unfolding AllSound sort_deterministically
  sorted-AllSound report h =
      All-of_In _
        (λ f m. In_of_All (IsSound world context) report.files f h (In-sort_by _ f report.files m))

ok_inj : {A E : Type 0} (r : Result A E) {a b : A} → r ≡ ok a → r ≡ ok b → a ≡ b
ok_inj r h k = cc

err_is_not_ok : {A E : Type 0} (e : E) {a : A} → err e ≡ ok a → ⊥
err_is_not_ok e h = cc

scan_context_fields :
    (world : ScanWorld) (stable_string : LocalPath → Text) (options : ScanOptions) (root : ScanRoot)
    (previous_states : List FileStateRecord) (context : ScanContext)
    → scan_context world stable_string options root previous_states ≡ ok context
    → (context.options ≡ options) × (context.root ≡ root)
unfolding scan_context
scan_context_fields world stable_string options root previous_states context h =
    go (new_matcher world.ignore_crate world.to_lowercase options.global_excludes root.excludes [])
      (new_matcher world.ignore_crate world.to_lowercase [] []
        (options.absolute_excludes ++ stable_string options.staging_dir ∷ []))
      h
  where
    with_matchers : ExclusionMatcher → ExclusionMatcher → ScanContext
    with_matchers patterns absolutes = record {
      options = options;
      root = root;
      pattern_matcher = patterns;
      absolute_matcher = absolutes;
      previous_states = previous_states;
    }

    go :
        (p q : Result ExclusionMatcher ExclusionError)
        → (p >>= λ patterns. q >>= λ absolutes. ok (with_matchers patterns absolutes)) ≡ ok context
        → (context.options ≡ options) × (context.root ≡ root)
    go (ok patterns) (ok absolutes) k =
        let same = ok_inj _ refl k in
        (
          sym (ap (λ (c : ScanContext). c.options) same),
          sym (ap (λ (c : ScanContext). c.root) same),
        )
    go (ok patterns) (err e) k = absurd (err_is_not_ok e k)
    go (err e) q k = absurd (err_is_not_ok e k)

-- Whatever order the walk takes and whatever the file system answers, every file of a scan report
-- belongs to the root, is excluded by no rule, is not larger than the largest size that is
-- configured, and has the remote path that its relative path maps to, with its lower case beside it.
pub scan_root-IsSound :
    (world : ScanWorld) (stable_string : LocalPath → Text) (message : Text) (options : ScanOptions)
    (root : ScanRoot) (previous_states : List FileStateRecord) (visits : Visits)
    (report : ScanReport)
    → scan_root world stable_string message options root previous_states visits ≡ ok report
    → (context : ScanContext) × (scan_context world stable_string options root previous_states
        ≡ ok context)
      × (context.options ≡ options)
      × (context.root ≡ root)
      × All (IsSound world context) report.files
unfolding scan_root AllSound
scan_root-IsSound world stable_string message options root previous_states visits report h =
    let (context, e, g) =
      >>=-eq-ok (scan_context world stable_string options root previous_states) _ report h in
    let (o, r) = scan_context_fields world stable_string options root previous_states context e in
    (
      context,
      e,
      o,
      r,
      subst (λ (z : ScanReport). All (IsSound world context) z.files) (ok_inj _ refl g)
          (sorted-AllSound world context _ (
            run_walk-AllSound world context message visits (empty_report root.id)
              (empty-AllSound world context root.id))),
    )
