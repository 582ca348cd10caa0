-- ===== src/Base/Text/Split.antt =====
-- `split`, `join` and the laws between them.
use Prim.Native.Nat.{ℕ}
use mathlib.Core.Path.{◌≡◌, refl, ap, sym, ◌∙◌}
use mathlib.Core.Bool.{Bool, true, false}
use mathlib.Core.List.{List, [], ◌∷◌, ◌++◌}
use native.Mathlib.Omega.{arith}
use mathlib.Core.Logic.{inl, inr}
use ya_disk_sync.Base.Tests.{nat_eq, if◌then◌else◌, Bool-cases}
use ya_disk_sync.Base.Lists.{All}

unfoldable pub cons_head : ℕ → List (List ℕ) → List (List ℕ)
cons_head c [] = (c ∷ []) ∷ []
cons_head c (w ∷ ws) = (c ∷ w) ∷ ws

-- `s.split(test)`: one piece more than there are separators.
unfoldable pub split : (ℕ → Bool) → List ℕ → List (List ℕ)
unfolding cons_head
split f [] = [] ∷ []
split f (c ∷ s) = let rest = split f s in if f c then [] ∷ rest else cons_head c rest

-- `ws.join("/")`
unfoldable pub join : List (List ℕ) → List ℕ
join [] = []
join (w ∷ []) = w
join (w ∷ v ∷ ws) = w ++ (b'/' ∷ join (v ∷ ws))

module _ (f : ℕ → Bool) where
  -- A piece with no separator stands alone.
  pub split_piece : (w : List ℕ) → All (λ c. f c ≡ false) w → split f w ≡ w ∷ []
  unfolding split
  split_piece [] h = refl
  split_piece (c ∷ w) h = rw (h.0, split_piece w h.1)

  pub split-append :
      (w : List ℕ) (c : ℕ) (s : List ℕ)
      → All (λ d. f d ≡ false) w
      → f c ≡ true
      → split f (w ++ (c ∷ s)) ≡ w ∷ split f s
  unfolding split
  split-append [] c s h k = rw k
  split-append (d ∷ w) c s h k = rw (h.0, split-append w c s h.1 k)

-- Pieces without a slash come back from their joined text.
pub split-join :
    (w : List ℕ) (ws : List (List ℕ))
    → All (All (λ c. nat_eq c b'/' ≡ false)) (w ∷ ws)
    → split (λ c. nat_eq c b'/') (join (w ∷ ws)) ≡ w ∷ ws
unfolding join
split-join w [] h = split_piece _ w h.0
split-join w (v ∷ ws) h =
    split-append (λ c. nat_eq c b'/') w b'/' (join (v ∷ ws)) h.0 refl
    ∙ ap (λ (r : List (List ℕ)). w ∷ r) (split-join v ws h.1)

join-nil : join ([] ∷ []) ≡ []
unfolding join
join-nil = refl

pub split-cons :
    (f : ℕ → Bool) (s : List ℕ) → (w : List ℕ) × (ws : List (List ℕ)) × (split f s ≡ w ∷ ws)
unfolding split cons_head
split-cons f [] = ([], [], refl)
split-cons f (c ∷ s) =
    let (w, ws, e) = split-cons f s in
    elim (Bool-cases (f c)) [
      | inl cut ↦ ([], w ∷ ws, rw (cut, e))
      | inr on ↦ (c ∷ w, ws, rw (on, e))
    ]

join-cons_head :
    (c : ℕ) (w : List ℕ) (ws : List (List ℕ)) → join (cons_head c (w ∷ ws)) ≡ c ∷ join (w ∷ ws)
unfolding join cons_head
join-cons_head c w [] = refl
join-cons_head c w (v ∷ ws) = refl

join-nil_cons : (w : List ℕ) (ws : List (List ℕ)) → join ([] ∷ w ∷ ws) ≡ b'/' ∷ join (w ∷ ws)
unfolding join
join-nil_cons w ws = refl

-- A text is its pieces between slashes, joined.
pub join-split : (s : List ℕ) → join (split (λ c. nat_eq c b'/') s) ≡ s
unfolding split
join-split [] = join-nil
join-split (c ∷ s) =
    let (w, ws, e) = split-cons (λ d. nat_eq d b'/') s in
    let same : join (w ∷ ws) ≡ s = ap join (sym e) ∙ join-split s in
    elim (Bool-cases (nat_eq c b'/')) [
      | inl cut ↦
          rw (cut, e)
            (join-nil_cons w ws
              ∙ ap (λ (t : List ℕ). b'/' ∷ t) same
              ∙ ap (λ (d : ℕ). d ∷ s) (ground arith))
      | inr on ↦ rw (on, e) (join-cons_head c w ws ∙ ap (λ (t : List ℕ). c ∷ t) same)
    ]
