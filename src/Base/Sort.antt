-- ===== src/Base/Sort.antt =====
-- A stable sort by a Boolean order, which computes what the stable `sort_by` does.
use mathlib.Core.Logic.{inl, inr}
use mathlib.Core.Bool.{Bool}
use mathlib.Core.List.{List, [], ◌∷◌}
use ya_disk_sync.Base.Tests.{if◌then◌else◌, Bool-cases}
use ya_disk_sync.Base.Lists.{In, All, Pairwise, All-of_In, In_of_All}

module _ {ℓ} {A : Type ℓ} (le : A → A → Bool) where
  -- `x` goes before the first item that is not below it, so equal items keep their order.
  unfoldable pub insert_by : A → List A → List A
  insert_by x [] = x ∷ []
  insert_by x (y ∷ ys) = let rest = insert_by x ys in if le x y then x ∷ y ∷ ys else y ∷ rest

  unfoldable pub sort_by : List A → List A
  unfolding insert_by
  sort_by [] = []
  sort_by (x ∷ xs) = insert_by x (sort_by xs)

module _ {A : Type 0} (le : A → A → Bool) where
  In-insert_by : (a x : A) (ys : List A) → In a (insert_by le x ys) → In a (x ∷ ys)
  unfolding insert_by
  In-insert_by a x [] m = m
  In-insert_by a x (y ∷ ys) m = elim (Bool-cases (le x y)) [
    | inl e ↦ rw e at m
    | inr n ↦
        let m' : In a (y ∷ insert_by le x ys) = rw n at m in
        elim m' [
          | inl s ↦ inr (inl s)
          | inr t ↦ elim (In-insert_by a x ys t) [ inl s ↦ inl s | inr u ↦ inr (inr u) ]
        ]
  ]

  In-insert_by_of : (a x : A) (ys : List A) → In a (x ∷ ys) → In a (insert_by le x ys)
  unfolding insert_by
  In-insert_by_of a x [] m = m
  In-insert_by_of a x (y ∷ ys) m = elim (Bool-cases (le x y)) [
    | inl e ↦ rw e m
    | inr n ↦ rw n (elim m [
      | inl s ↦ inr (In-insert_by_of a x ys (inl s))
      | inr (inl s) ↦ inl s
      | inr (inr t) ↦ inr (In-insert_by_of a x ys (inr t))
    ])
  ]

  -- The sorted list has the same members.
  pub In-sort_by : (a : A) (xs : List A) → In a (sort_by le xs) → In a xs
  unfolding sort_by
  In-sort_by a [] m = m
  In-sort_by a (x ∷ xs) m = elim (In-insert_by a x (sort_by le xs) m) [
    | inl e ↦ inl e
    | inr t ↦ inr (In-sort_by a xs t)
  ]

  pub In-sort_by_of : (a : A) (xs : List A) → In a xs → In a (sort_by le xs)
  unfolding sort_by
  In-sort_by_of a [] m = m
  In-sort_by_of a (x ∷ xs) (inl e) = In-insert_by_of a x (sort_by le xs) (inl e)
  In-sort_by_of a (x ∷ xs) (inr t) =
      In-insert_by_of a x (sort_by le xs) (inr (In-sort_by_of a xs t))

  module _ {κ} (R : A → A → Type κ) (symm : (a b : A) → R a b → R b a) where
    Pairwise-insert_by :
        (x : A) (ys : List A) → All (R x) ys → Pairwise R ys → Pairwise R (insert_by le x ys)
    unfolding insert_by
    Pairwise-insert_by x [] h p = (tt, tt)
    Pairwise-insert_by x (y ∷ ys) h p = elim (Bool-cases (le x y)) [
      | inl e ↦ rw e ((h.0, h.1), p)
      | inr n ↦ rw n (
        All-of_In (insert_by le x ys) (λ a m. all_in a (In-insert_by a x ys m)),
        Pairwise-insert_by x ys h.1 p.1,
      )
    ]
      where
        all_in : (a : A) → In a (x ∷ ys) → R y a
        all_in a (inl e) = rw e (symm x y h.0)
        all_in a (inr m) = In_of_All (R y) ys a p.0 m

    -- A symmetric relation between all pairs survives the sort.
    pub Pairwise-sort_by : (xs : List A) → Pairwise R xs → Pairwise R (sort_by le xs)
    unfolding sort_by
    Pairwise-sort_by [] p = tt
    Pairwise-sort_by (x ∷ xs) p =
        Pairwise-insert_by x (sort_by le xs)
          (All-of_In (sort_by le xs) (λ a m. In_of_All (R x) xs a p.0 (In-sort_by a xs m)))
          (Pairwise-sort_by xs p.1)
