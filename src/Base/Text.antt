-- ===== src/Base/Text.antt =====
-- Rust's `str` as the list of its code points: the methods that the program calls. The order of
-- UTF-8 bytes is the order of code points.
pub mod Split
pub mod Order
use Prim.Native.Nat.{ℕ, suc, ◌+◌, ◌-◌}
use Prim.Native.Char.{code}
use Prim.Native.String.{String}
use mathlib.Core.Path.{◌≡◌, refl, ap, sym, ◌∙◌}
use mathlib.Core.Logic.{◌↔◌, ◌⊎◌, inl, inr}
use mathlib.Core.Bool.{Bool, true, false, ◌&&◌, ◌||◌}
use mathlib.Core.Option
use mathlib.Core.Option.{Option, none, some}
use mathlib.Core.List.{List, [], ◌∷◌, ◌++◌, reverse}
use mathlib.Core.List.{append_assoc, reverse-append, reverse-reverse}
use native.Mathlib.Omega.{arith}
use ya_disk_sync.Base.Lists.{In}
use ya_disk_sync.Base.Tests.{nat_eq, leb, if◌then◌else◌, Bool-cases, is_some_and}

abbrev pub Text : Type 0
Text = List ℕ

-- A literal. Shut in proofs, which seldom need its letters.
unfoldable pub text : String → Text
text String.[] = []
text (String.◌∷◌ c s) = code c ∷ text s

abbrev pub slash : ℕ
slash = b'/'

infix 50 ◌==◌
unfoldable pub ◌==◌ : Text → Text → Bool
[] == [] = true
[] == (b ∷ t) = false
(a ∷ s) == [] = false
(a ∷ s) == (b ∷ t) = nat_eq a b && (s == t)

pub ==_iff : (s t : Text) → ((s == t) ≡ true) ↔ (s ≡ t)
unfolding ◌==◌
==_iff [] [] = ground arith
==_iff [] (b ∷ t) = ground arith
==_iff (a ∷ s) [] = ground arith
==_iff (a ∷ s) (b ∷ t) = ground (arith, ==_iff s t)

pub ==_refl : (s : Text) → (s == s) ≡ true
==_refl s = (==_iff s s).1 refl

-- `s.strip_prefix(p)`
unfoldable pub strip_prefix : Text → Text → Option Text
strip_prefix s [] = some s
strip_prefix [] (b ∷ p) = none
strip_prefix (a ∷ s) (b ∷ p) = if nat_eq a b then strip_prefix s p else none

pub strip_prefix_sound : (s p r : Text) → strip_prefix s p ≡ some r → s ≡ p ++ r
unfolding strip_prefix
strip_prefix_sound s [] r h = ground arith
strip_prefix_sound [] (b ∷ p) r h = ground arith
strip_prefix_sound (a ∷ s) (b ∷ p) r h = ground (arith, strip_prefix_sound s p r)

pub strip_prefix-append : (p r : Text) → strip_prefix (p ++ r) p ≡ some r
unfolding strip_prefix
strip_prefix-append [] r = refl
strip_prefix-append (a ∷ p) r = ground (arith, strip_prefix-append p r)

-- `s.strip_suffix(p)`
unfoldable pub strip_suffix : Text → Text → Option Text
unfolding strip_prefix
strip_suffix s p = Option.map reverse (strip_prefix (reverse s) (reverse p))

-- `s.starts_with(p)`
unfoldable pub starts_with : Text → Text → Bool
starts_with s p = is_some_and (strip_prefix s p) (λ _. true)

pub starts_with_sound : (s p : Text) → starts_with s p ≡ true → (r : Text) × (s ≡ p ++ r)
unfolding starts_with
starts_with_sound s p h = go (strip_prefix s p) refl h
  where
    go :
        (o : Option Text)
        → strip_prefix s p ≡ o
        → is_some_and o (λ _. true) ≡ true
        → (r : Text) × (s ≡ p ++ r)
    go none e h = cc
    go (some r) e h = (r, strip_prefix_sound s p r e)

pub starts_with-append : (p r : Text) → starts_with (p ++ r) p ≡ true
unfolding starts_with
starts_with-append p r = rw strip_prefix-append

-- `s.starts_with('/')`
unfoldable pub starts_with_slash : Text → Bool
starts_with_slash [] = false
starts_with_slash (c ∷ s) = nat_eq c slash

-- `path == prefix || path.strip_prefix(prefix).is_some_and(|rest| rest.starts_with('/'))`: the
-- path is the prefix or stands below it.
unfoldable pub is_within : Text → Text → Bool
is_within path prefix = path == prefix || is_some_and (strip_prefix path prefix) starts_with_slash

abbrev pub Below : Text → Text → Type 0
Below path prefix = (r : Text) × (path ≡ prefix ++ (slash ∷ r))

abbrev pub Within : Text → Text → Type 0
Within path prefix = (path ≡ prefix) ⊎ Below path prefix

pub is_within_sound : (p q : Text) → is_within p q ≡ true → Within p q
unfolding is_within starts_with_slash
is_within_sound p q h = elim (Bool-cases (p == q)) [
  | inl e ↦ inl ((==_iff p q).0 e)
  | inr n ↦ inr (go (strip_prefix p q) refl (rw n at h))
]
  where
    go :
        (o : Option Text)
        → strip_prefix p q ≡ o
        → is_some_and o starts_with_slash ≡ true
        → Below p q
    go none e h = cc
    go (some []) e h = cc
    go (some (c ∷ r)) e h =
        (r, strip_prefix_sound p q (c ∷ r) e ∙ ap (λ d. q ++ (d ∷ r)) (ground arith))

pub is_within_complete : (p q : Text) → Within p q → is_within p q ≡ true
unfolding is_within starts_with_slash
is_within_complete p q (inl e) = ground (arith, ==_iff p q)
is_within_complete p q (inr (r, e)) =
    rw (e, strip_prefix-append) (ground (arith, Bool-cases ((q ++ (slash ∷ r)) == q)))

pub Within-trans : (a b c : Text) → Within a b → Within b c → Within a c
Within-trans a b c (inl e) (inl f) = inl (e ∙ f)
Within-trans a b c (inl e) (inr (r, f)) = inr (r, e ∙ f)
Within-trans a b c (inr (r, e)) (inl f) = inr (r, e ∙ ap (λ (t : Text). t ++ (slash ∷ r)) f)
Within-trans a b c (inr (r, e)) (inr (s, f)) = inr (
  s ++ (slash ∷ r),
  e ∙ ap (λ (t : Text). t ++ (slash ∷ r)) f ∙ append_assoc c (slash ∷ s) (slash ∷ r),
)

-- `s.trim_start_matches(test)`
unfoldable pub trim_start_matches : (ℕ → Bool) → Text → Text
trim_start_matches f [] = []
trim_start_matches f (c ∷ s) = let rest = trim_start_matches f s in if f c then rest else c ∷ s

-- `s.trim_end_matches(test)`
unfoldable pub trim_end_matches : (ℕ → Bool) → Text → Text
unfolding trim_start_matches
trim_end_matches f s = reverse (trim_start_matches f (reverse s))

-- `s.trim_matches(test)`
unfoldable pub trim_matches : (ℕ → Bool) → Text → Text
unfolding trim_end_matches
trim_matches f s = trim_end_matches f (trim_start_matches f s)

abbrev pub is_slash : ℕ → Bool
is_slash c = nat_eq c slash

-- The code points with the property White_Space.
unfoldable pub is_whitespace : ℕ → Bool
is_whitespace c =
    (leb 9 c && leb c 13)
    || nat_eq c 32
    || nat_eq c 0x85
    || nat_eq c 0xa0
    || nat_eq c 0x1680
    || (leb 0x2000 c && leb c 0x200a)
    || nat_eq c 0x2028
    || nat_eq c 0x2029
    || nat_eq c 0x202f
    || nat_eq c 0x205f
    || nat_eq c 0x3000

-- `s.trim()`
unfoldable pub trim : Text → Text
unfolding trim_matches is_whitespace
trim s = trim_matches is_whitespace s

unfoldable pub is_empty : Text → Bool
is_empty [] = true
is_empty (c ∷ s) = false

-- `c.is_control()`: the category Cc.
unfoldable pub is_control : ℕ → Bool
is_control c = leb c 0x1f || (leb 0x7f c && leb c 0x9f)

unfoldable pub is_ascii_alphabetic : ℕ → Bool
is_ascii_alphabetic c = (leb b'A' c && leb c b'Z') || (leb b'a' c && leb c b'z')

unfoldable pub to_ascii_uppercase : ℕ → ℕ
to_ascii_uppercase c = if leb b'a' c && leb c b'z' then c - 32 else c

unfoldable pub to_ascii_lowercase : ℕ → ℕ
to_ascii_lowercase c = if leb b'A' c && leb c b'Z' then c + 32 else c

-- `s.replace('\\', "/")`
unfoldable pub replace_backslash : Text → Text
replace_backslash [] = []
replace_backslash (c ∷ s) = (if nat_eq c 92 then slash else c) ∷ replace_backslash s

-- `s.matches('/').count()`
unfoldable pub count_slashes : Text → ℕ
count_slashes [] = 0
count_slashes (c ∷ s) = if is_slash c then suc (count_slashes s) else count_slashes s

-- `list.contains(s)`, and `contains` of a set of texts that is kept as a list.
unfoldable pub contains : List Text → Text → Bool
unfolding ◌==◌
contains [] s = false
contains (t ∷ ts) s = t == s || contains ts s

pub contains_sound : (ts : List Text) (s : Text) → contains ts s ≡ true → In s ts
unfolding contains
contains_sound [] s h = cc
contains_sound (t ∷ ts) s h = elim (Bool-cases (t == s)) [
  | inl e ↦ inl (sym ((==_iff t s).0 e))
  | inr n ↦ inr (contains_sound ts s (rw n at h))
]

pub contains_complete : (ts : List Text) (s : Text) → In s ts → contains ts s ≡ true
unfolding contains
contains_complete [] s h = absurd h
contains_complete (t ∷ ts) s (inl e) = ground (arith, ==_iff t s)
contains_complete (t ∷ ts) s (inr m) = ground (arith, contains_complete ts s m)
