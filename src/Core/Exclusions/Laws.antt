-- ===== src/Core/Exclusions/Laws.antt =====
-- What a built matcher excludes.
use mathlib.Core.List.{append-nil, append_assoc}
use ya_disk_sync.Base.{
  ◌≢◌, ℕ, suc, ◌≡◌, refl, sym, ap, ◌∙◌, ◌↔◌, inl, inr, Bool, true, ◌||◌, List, [], ◌∷◌, ◌++◌, map,
  Bool-cases, any, any-true, any-false, is_some_and, In,
}
use ya_disk_sync.Base.Result.{Result, ok, err, >>=-eq-ok}
use ya_disk_sync.Base.Text.{
  Text, ◌==◌, is_within, Within, is_within_sound, is_within_complete, strip_prefix,
  starts_with_slash, replace_backslash,
}
use ya_disk_sync.Core.Exclusions.{
  ExclusionError, absolute, ExclusionDecision, excluded, included, Verdict, ignored, whitelisted,
  unmatched, IgnoreCrate, ExclusionMatcher, normalize_absolute_path, validate_rule, or_invalid_rule,
  add_rules, new_matcher, matches_absolute_exclude, decision_of_verdict, decision_for_path,
}

In-map_inv :
    (f : Text → Text) (xs : List Text) (y : Text)
    → In y (map f xs)
    → (x : Text) × In x xs × (y ≡ f x)
In-map_inv f [] y m = absurd m
In-map_inv f (x ∷ xs) y (inl e) = (x, inl refl, e)
In-map_inv f (x ∷ xs) y (inr m) = let (z, i, e) = In-map_inv f xs y m in (z, inr i, e)

In-map_of : (f : Text → Text) (xs : List Text) (x : Text) → In x xs → In (f x) (map f xs)
In-map_of f [] x m = absurd m
In-map_of f (y ∷ xs) x (inl e) = inl (ap f e)
In-map_of f (y ∷ xs) x (inr m) = inr (In-map_of f xs x m)

-- The lines of the pattern set are the rules, in their order.
add_rules-ok :
    (crate : IgnoreCrate) (added : List Text) (index : ℕ) (rules lines : List Text)
    → add_rules crate added index rules ≡ ok lines
    → lines ≡ added ++ rules
unfolding add_rules
add_rules-ok crate added index [] lines h = ap from_ok (sym h) ∙ sym (append-nil added)
  where
    from_ok : Result (List Text) ExclusionError → List Text
    from_ok (ok xs) = xs
    from_ok (err e) = lines
add_rules-ok crate added index (rule ∷ rules) lines h =
    let (u, e, k) = >>=-eq-ok (validate_rule rule index) _ lines h in
    let (v, f, l) = >>=-eq-ok (or_invalid_rule index (crate.add_line added rule)) _ lines k in
    add_rules-ok crate (added ++ rule ∷ []) (suc index) rules lines l
    ∙ append_assoc added (rule ∷ []) rules

matches-Within :
    (to_lowercase : Text → Text) (candidate : Text) (rules : List Text)
    → (any
          (λ ex. candidate == ex || is_some_and (strip_prefix candidate ex) starts_with_slash)
          (map (normalize_absolute_path to_lowercase) rules)
        ≡ true)
      ↔ ((x : Text) × In x rules × Within candidate (normalize_absolute_path to_lowercase x))
unfolding is_within
matches-Within to_lowercase candidate rules = (
  λ h.
      let (y, i, t) = any-true (is_within candidate) _ h in
      let (x, j, e) = In-map_inv (normalize_absolute_path to_lowercase) rules y i in
      (x, j, is_within_sound candidate _ (ap (is_within candidate) (sym e) ∙ t)),
  λ k.
      let (x, j, w) = k in
      elim (Bool-cases
        (any (is_within candidate) (map (normalize_absolute_path to_lowercase) rules))) [
          | inl hit ↦ hit
          | inr miss ↦
              let f =
                any-false (is_within candidate) _ _ miss
                  (In-map_of (normalize_absolute_path to_lowercase) rules x j) in
              let t = is_within_complete candidate _ w in cc
        ],
)

matcher_of_ok : ExclusionMatcher → Result ExclusionMatcher ExclusionError → ExclusionMatcher
matcher_of_ok d (ok m) = m
matcher_of_ok d (err e) = d

verdict_not_absolute : (v : Verdict) → decision_of_verdict v ≢ excluded absolute
unfolding decision_of_verdict excluded included
verdict_not_absolute ignored h = let e = ap (λ (d : ExclusionDecision). d.reason) h in cc
verdict_not_absolute whitelisted h = let e = ap (λ (d : ExclusionDecision). d.reason) h in cc
verdict_not_absolute unmatched h = let e = ap (λ (d : ExclusionDecision). d.reason) h in cc

reason_absolute :
    (crate : IgnoreCrate) (to_lowercase : Text → Text) (matcher : ExclusionMatcher) (path : Text)
    (is_dir : Bool)
    → (decision_for_path crate to_lowercase matcher path is_dir ≡ excluded absolute)
      ↔ (matches_absolute_exclude to_lowercase matcher path ≡ true)
unfolding decision_for_path
reason_absolute crate to_lowercase matcher path is_dir = (
  λ h. elim (Bool-cases (matches_absolute_exclude to_lowercase matcher path)) [
    | inl hit ↦ hit
    | inr miss ↦ absurd (
        verdict_not_absolute (crate.matched_path_or_any_parents matcher.patterns path is_dir)
          (rw miss at h))
  ],
  λ h. rw h refl,
)

-- A matcher that could be built has the global rules and then those of the root as its patterns,
-- and it excludes a path as absolute exactly when the path, with its separators, its trailing
-- slashes and the case of a Windows path normalized, is one of the absolute exclusions, normalized
-- in the same way, or stands below one: no pattern can take such a path in again.
pub decision_for_path-absolute :
    (crate : IgnoreCrate) (to_lowercase : Text → Text)
    (global_rules root_rules absolute_rules : List Text) (matcher : ExclusionMatcher) (path : Text)
    (is_dir : Bool)
    → new_matcher crate to_lowercase global_rules root_rules absolute_rules ≡ ok matcher
    → (matcher.patterns ≡ global_rules ++ root_rules)
      × ((decision_for_path crate to_lowercase matcher path is_dir ≡ excluded absolute) ↔ (
          (x : Text) × In x absolute_rules
          × Within
              (normalize_absolute_path to_lowercase (replace_backslash path))
              (normalize_absolute_path to_lowercase x)))
unfolding new_matcher matches_absolute_exclude matcher_of_ok
decision_for_path-absolute crate to_lowercase gs rs abs matcher path is_dir h =
    let (lines, e, k) = >>=-eq-ok (add_rules crate [] 0 (gs ++ rs)) _ matcher h in
    let (u, f, l) = >>=-eq-ok (or_invalid_rule _ (crate.build lines)) _ matcher k in
    let same = ap (matcher_of_ok matcher) l in
    let w =
      matches-Within to_lowercase (normalize_absolute_path to_lowercase (replace_backslash path))
        abs in
    let r = reason_absolute crate to_lowercase matcher path is_dir in
    let at =
      ap
        (λ (m : ExclusionMatcher).
          any
            (λ ex.
              normalize_absolute_path to_lowercase (replace_backslash path) == ex
              || is_some_and
                  (strip_prefix (normalize_absolute_path to_lowercase (replace_backslash path)) ex)
                  starts_with_slash)
            m.absolute_excludes)
        same in
    (
      sym (ap (λ (m : ExclusionMatcher). m.patterns) same)
          ∙ add_rules-ok crate [] 0 (gs ++ rs) lines e,
      (λ h. w.0 (at ∙ r.0 h), λ x. r.1 (sym at ∙ w.1 x)),
    )
