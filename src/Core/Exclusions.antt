-- ===== src/Core/Exclusions.antt =====
-- crates/yds-core/src/exclusions.rs: which local paths a run leaves out.
pub mod Laws
use mathlib.Core.List.{append-nil, append_assoc}
use ya_disk_sync.Base.{
  ◌≢◌, ℕ, suc, ◌+◌, ◌≡◌, refl, sym, ap, ◌∙◌, ◌↔◌, inl, inr, Bool, true, false, ◌&&◌, ◌||◌, Option,
  none, some, List, [], ◌∷◌, ◌++◌, map, nat_eq, if◌then◌else◌, Bool-cases, length, any, any-true,
  any-false, is_some_and, In,
}
use ya_disk_sync.Base.Result.{Result, ok, err, ◌>>=◌, >>=-eq-ok}
use ya_disk_sync.Base.Text.{
  Text, text, ◌==◌, is_slash, is_empty, is_control, is_within, Within, is_within_sound,
  is_within_complete, is_ascii_alphabetic, strip_prefix, starts_with_slash, trim, trim_end_matches,
  replace_backslash,
}

-- `ExclusionError::InvalidRule`: the index of the rule and the message.
pub record ExclusionError : Type 0 where
  pub index : ℕ
  pub message : Text

pub data ExclusionReason : Type 0 where
  absolute pattern_match included_by_negation not_matched : ExclusionReason

pub record ExclusionDecision : Type 0 where
  pub is_excluded : Bool
  pub reason : ExclusionReason

unfoldable pub excluded : ExclusionReason → ExclusionDecision
excluded reason = record { is_excluded = true; reason = reason }

unfoldable pub included : ExclusionReason → ExclusionDecision
included reason = record { is_excluded = false; reason = reason }

-- What the crate `ignore` answers: the error of a line that follows the given lines, the error of
-- building a set of lines, and how a built set matches a path or any parent of it.
pub data Verdict : Type 0 where
  ignored whitelisted unmatched : Verdict

pub record IgnoreCrate : Type 0 where
  pub add_line : List Text → Text → Option Text
  pub build : List Text → Option Text
  pub matched_path_or_any_parents : List Text → Text → Bool → Verdict

pub record ExclusionMatcher : Type 0 where
  pub patterns : List Text
  pub absolute_excludes : List Text

unfoldable pub looks_like_windows_path : Text → Bool
looks_like_windows_path [] = false
looks_like_windows_path (c ∷ []) = false
looks_like_windows_path (c ∷ d ∷ rest) = is_ascii_alphabetic c && nat_eq d b':'

-- Lower case over all of Unicode is the standard library's table: a parameter here.
unfoldable pub normalize_absolute_path : (Text → Text) → Text → Text
normalize_absolute_path to_lowercase path =
    let normalized = trim_end_matches is_slash (replace_backslash path) in
    if looks_like_windows_path normalized then to_lowercase normalized else normalized

unfoldable pub validate_rule : Text → ℕ → Result (Unit {0}) ExclusionError
validate_rule rule index =
    if is_empty (trim rule)
    then err (record { index = index; message = text "rule must not be empty" })
    else if any is_control rule
    then err (record { index = index; message = text "rule must not contain control characters" })
    else ok tt

unfoldable pub or_invalid_rule : ℕ → Option Text → Result (Unit {0}) ExclusionError
or_invalid_rule index none = ok tt
or_invalid_rule index (some message) = err (record { index = index; message = message })

module _ (crate : IgnoreCrate) where
  -- The loop over the rules, with the lines that were added.
  unfoldable pub add_rules : List Text → ℕ → List Text → Result (List Text) ExclusionError
  add_rules added index [] = ok added
  add_rules added index (rule ∷ rules) =
      let rest = add_rules (added ++ rule ∷ []) (suc index) rules in
      validate_rule rule index >>= λ _.
      or_invalid_rule index (crate.add_line added rule) >>= λ _. rest

  -- `ExclusionMatcher::new`
  unfoldable pub new_matcher :
      (Text → Text) → List Text → List Text → List Text → Result ExclusionMatcher ExclusionError
  new_matcher to_lowercase global_rules root_rules absolute_excludes =
      add_rules [] 0 (global_rules ++ root_rules) >>= λ lines.
      or_invalid_rule (length global_rules + length root_rules) (crate.build lines) >>= λ _.
      ok (record {
        patterns = lines;
        absolute_excludes = map (normalize_absolute_path to_lowercase) absolute_excludes;
      })

-- A path is given by the text of it, which `to_string_lossy` gives.
unfoldable pub matches_absolute_exclude : (Text → Text) → ExclusionMatcher → Text → Bool
matches_absolute_exclude to_lowercase matcher path =
    let candidate = normalize_absolute_path to_lowercase (replace_backslash path) in
    any (λ ex. candidate == ex || is_some_and (strip_prefix candidate ex) starts_with_slash)
      matcher.absolute_excludes

unfoldable pub decision_of_verdict : Verdict → ExclusionDecision
decision_of_verdict ignored = excluded pattern_match
decision_of_verdict whitelisted = included included_by_negation
decision_of_verdict unmatched = included not_matched

unfoldable pub decision_for_path :
    IgnoreCrate → (Text → Text) → ExclusionMatcher → Text → Bool → ExclusionDecision
decision_for_path crate to_lowercase matcher path is_dir =
    if matches_absolute_exclude to_lowercase matcher path
    then excluded absolute
    else decision_of_verdict (crate.matched_path_or_any_parents matcher.patterns path is_dir)
