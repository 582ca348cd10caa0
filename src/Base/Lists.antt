-- ===== src/Base/Lists.antt =====
-- Lists: the iterator adaptors that the program uses, over Boolean tests, with membership and
-- universal predicates that compute.
use Prim.Native.Nat.{ℕ, suc, ◌+◌}
use mathlib.Core.Path.{◌≡◌, refl}
use mathlib.Core.Logic.{◌⊎◌, inl, inr}
use mathlib.Core.Bool.{Bool, true, false, ◌||◌}
use mathlib.Core.List.{List, [], ◌∷◌, ◌++◌}
use native.Mathlib.Omega.{arith}
use ya_disk_sync.Base.Tests.{if◌then◌else◌, Bool-cases}

module _ {ℓ} {A : Type ℓ} where
  abbrev pub length : List A → ℕ
  length [] = 0
  length (x ∷ xs) = suc (length xs)

  abbrev pub All {κ} : (A → Type κ) → List A → Type κ
  All P [] = Unit
  All P (x ∷ xs) = P x × All P xs

  -- `R` between each item and every later one.
  abbrev pub Pairwise {κ} : (A → A → Type κ) → List A → Type κ
  Pairwise R [] = Unit
  Pairwise R (x ∷ xs) = All (R x) xs × Pairwise R xs

  -- `iter().any(test)`
  unfoldable pub any : (A → Bool) → List A → Bool
  any f [] = false
  any f (x ∷ xs) = f x || any f xs

  -- `filter(test)`, `retain(test)`
  unfoldable pub filter : (A → Bool) → List A → List A
  filter f [] = []
  filter f (x ∷ xs) = let rest = filter f xs in if f x then x ∷ rest else rest

-- Membership as a sum, which the tactics take apart.
abbrev pub In : {A : Type 0} → A → List A → Type 0
In a [] = ⊥
In a (x ∷ xs) = (a ≡ x) ⊎ In a xs

module _ {ℓ} {A : Type ℓ} where
  pub length-append : (xs ys : List A) → length (xs ++ ys) ≡ length xs + length ys
  length-append [] ys = omega arith
  length-append (x ∷ xs) ys = omega (arith, length-append xs ys)

module _ {A : Type 0} where
  pub In-append_left : (a : A) (xs ys : List A) → In a xs → In a (xs ++ ys)
  In-append_left a [] ys h = absurd h
  In-append_left a (x ∷ xs) ys (inl e) = inl e
  In-append_left a (x ∷ xs) ys (inr m) = inr (In-append_left a xs ys m)

  pub In-append_right : (a : A) (xs ys : List A) → In a ys → In a (xs ++ ys)
  In-append_right a [] ys h = h
  In-append_right a (x ∷ xs) ys h = inr (In-append_right a xs ys h)

  pub In-append_split : (a : A) (xs ys : List A) → In a (xs ++ ys) → In a xs ⊎ In a ys
  In-append_split a [] ys h = inr h
  In-append_split a (x ∷ xs) ys (inl e) = inl (inl e)
  In-append_split a (x ∷ xs) ys (inr m) = elim (In-append_split a xs ys m) [
    | inl l ↦ inl (inr l)
    | inr r ↦ inr r
  ]

  pub any-false : (f : A → Bool) (xs : List A) (a : A) → any f xs ≡ false → In a xs → f a ≡ false
  unfolding any
  any-false f [] a h m = absurd m
  any-false f (x ∷ xs) a h (inl e) = ground arith
  any-false f (x ∷ xs) a h (inr m) = any-false f xs a (ground arith) m

  pub any-true : (f : A → Bool) (xs : List A) → any f xs ≡ true → (a : A) × In a xs × (f a ≡ true)
  unfolding any
  any-true f [] h = cc
  any-true f (x ∷ xs) h = elim (Bool-cases (f x)) [
    | inl e ↦ (x, inl refl, e)
    | inr n ↦ let r = any-true f xs (ground arith) in (r.0, inr r.1, r.2)
  ]

  pub any_of_In : (f : A → Bool) (xs : List A) (a : A) → In a xs → f a ≡ true → any f xs ≡ true
  unfolding any
  any_of_In f [] a m h = absurd m
  any_of_In f (x ∷ xs) a (inl e) h = ground arith
  any_of_In f (x ∷ xs) a (inr m) h = ground (arith, any_of_In f xs a m h)

  pub In-filter : (f : A → Bool) (xs : List A) (a : A) → In a (filter f xs) → In a xs × (f a ≡ true)
  unfolding filter
  In-filter f [] a m = absurd m
  In-filter f (x ∷ xs) a m = elim (Bool-cases (f x)) [
    | inl e ↦
        let m' : In a (x ∷ filter f xs) = rw e at m in
        elim m' [
          | inl s ↦ (inl s, ground arith)
          | inr t ↦ let r = In-filter f xs a t in (inr r.0, r.1)
        ]
    | inr n ↦ let r = In-filter f xs a (rw n at m) in (inr r.0, r.1)
  ]

  pub In-filter_of :
      (f : A → Bool) (xs : List A) (a : A) → In a xs → f a ≡ true → In a (filter f xs)
  unfolding filter
  In-filter_of f [] a m h = absurd m
  In-filter_of f (x ∷ xs) a (inl e) h = ground arith
  In-filter_of f (x ∷ xs) a (inr m) h = elim (Bool-cases (f x)) [
    | inl e ↦ rw e (inr (In-filter_of f xs a m h))
    | inr n ↦ rw n (In-filter_of f xs a m h)
  ]

module _ {κ} {A : Type 0} {P : A → Type κ} where
  pub All-of_In : (xs : List A) → ((a : A) → In a xs → P a) → All P xs
  All-of_In [] h = tt
  All-of_In (x ∷ xs) h = (h x (inl refl), All-of_In xs (λ a m. h a (inr m)))

module _ {κ} {A : Type 0} (P : A → Type κ) where
  pub In_of_All : (xs : List A) (a : A) → All P xs → In a xs → P a
  In_of_All [] a h m = absurd m
  In_of_All (x ∷ xs) a h (inl e) = rw e h.0
  In_of_All (x ∷ xs) a h (inr m) = In_of_All xs a h.1 m

module _ {ℓ κ} {A : Type ℓ} (P : A → Type κ) where
  pub All-filter : (f : A → Bool) (xs : List A) → All P xs → All P (filter f xs)
  unfolding filter
  All-filter f [] h = tt
  All-filter f (x ∷ xs) h = elim (Bool-cases (f x)) [
    | inl e ↦ rw e (h.0, All-filter f xs h.1)
    | inr n ↦ rw n (All-filter f xs h.1)
  ]

module _ {ℓ κ} {A : Type ℓ} (R : A → A → Type κ) where
  pub Pairwise-filter : (f : A → Bool) (xs : List A) → Pairwise R xs → Pairwise R (filter f xs)
  unfolding filter
  Pairwise-filter f [] h = tt
  Pairwise-filter f (x ∷ xs) h = elim (Bool-cases (f x)) [
    | inl e ↦ rw e (All-filter (R x) f xs h.0, Pairwise-filter f xs h.1)
    | inr n ↦ rw n (Pairwise-filter f xs h.1)
  ]
