-- ===== src/Base/Text/Order.antt =====
-- The order of texts and of the pairs that sort keys are made of.
use Prim.Native.Nat.{ℕ}
use mathlib.Core.Path.{◌≡◌, refl}
use mathlib.Core.Bool.{Bool, true, false}
use mathlib.Core.List.{List, [], ◌∷◌}
use native.Mathlib.Omega.{arith}
use ya_disk_sync.Base.Tests.{nat_eq, ltb, if◌then◌else◌}

-- `left <= right` of two strings.
unfoldable pub le_text : List ℕ → List ℕ → Bool
le_text [] t = true
le_text (a ∷ s) [] = false
le_text (a ∷ s) (b ∷ t) =
    let rest = le_text s t in if ltb a b then true else if nat_eq a b then rest else false

pub le_text_total : (s t : List ℕ) → le_text s t ≡ false → le_text t s ≡ true
unfolding le_text
le_text_total [] [] h = ground arith
le_text_total [] (b ∷ t) h = ground arith
le_text_total (a ∷ s) [] h = refl
le_text_total (a ∷ s) (b ∷ t) h = ground (arith, le_text_total s t)

pub le_text_trans : (s t u : List ℕ) → le_text s t ≡ true → le_text t u ≡ true → le_text s u ≡ true
unfolding le_text
le_text_trans [] t u h k = ground arith
le_text_trans (a ∷ s) [] u h k = cc
le_text_trans (a ∷ s) (b ∷ t) [] h k = cc
le_text_trans (a ∷ s) (b ∷ t) (c ∷ u) h k = ground (arith, le_text_trans s t u)
