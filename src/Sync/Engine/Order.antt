-- ===== src/Sync/Engine/Order.antt =====
-- The order of what a root asks of the remote side.
pub mod Root
use mathlib.Core.Path.{subst}
use mathlib.Core.List.{append_assoc, append-nil}
use ya_disk_sync.Base.{
  ℕ, suc, ◌≤◌, ◌≡◌, refl, sym, ap, ◌∙◌, Bool, true, false, Option, none, some, List, [], ◌∷◌, ◌++◌,
  All, Pairwise, if◌then◌else◌, arith,
}
use ya_disk_sync.Base.Result.{Result, ok, err}
use ya_disk_sync.Base.Exec.{continue, ◌>>=◌, ◌>>◌}
use ya_disk_sync.Sync.Engine.World.{
  SyncError, Event, repository_call, operation_started, cancellation_read, metadata_read,
  remote_delete, remote_create, remote_upload, staging_removed, run_started, lock_requested,
  question, M,
}
use ya_disk_sync.Sync.Engine.Emits.{Emits}
use ya_disk_sync.Sync.Engine.Requests.{IsQuiet}

-- The requests of the events, newest first: 0 creates a directory, 1 uploads a file, 2 deletes.
abbrev pub phases : List Event → List ℕ
phases [] = []
phases (remote_create path ∷ es) = 0 ∷ phases es
phases (remote_upload f ∷ es) = 1 ∷ phases es
phases (remote_delete path ∷ es) = 2 ∷ phases es
phases (repository_call c ∷ es) = phases es
phases (operation_started o ∷ es) = phases es
phases (cancellation_read ∷ es) = phases es
phases (metadata_read path ∷ es) = phases es
phases (staging_removed path ∷ es) = phases es
phases (run_started trigger ∷ es) = phases es
phases (lock_requested owner ∷ es) = phases es
phases (question q ∷ es) = phases es

abbrev pub InPhase : ℕ → Event → Type 0
InPhase n (remote_create path) = n ≡ 0
InPhase n (remote_upload f) = n ≡ 1
InPhase n (remote_delete path) = n ≡ 2
InPhase n (repository_call c) = Unit
InPhase n (operation_started o) = Unit
InPhase n cancellation_read = Unit
InPhase n (metadata_read path) = Unit
InPhase n (staging_removed path) = Unit
InPhase n (run_started trigger) = Unit
InPhase n (lock_requested owner) = Unit
InPhase n (question q) = Unit

pub quiet : (n : ℕ) (e : Event) → IsQuiet e → InPhase n e
quiet n (remote_create path) h = absurd h
quiet n (remote_upload f) h = absurd h
quiet n (remote_delete path) h = absurd h
quiet n (repository_call c) h = tt
quiet n (operation_started o) h = tt
quiet n cancellation_read h = tt
quiet n (metadata_read path) h = tt
quiet n (staging_removed path) h = tt
quiet n (run_started trigger) h = tt
quiet n (lock_requested owner) h = tt
quiet n (question q) h = tt

-- The older request of two stands in the same phase or an earlier one.
abbrev pub IsOrdered : List ℕ → Type 0
IsOrdered = Pairwise (λ newer older. older ≤ newer)

abbrev Between : ℕ → ℕ → List ℕ → Type 0
Between low high = All (λ n. (low ≤ n) × (n ≤ high))

phases-append : (xs ys : List Event) → phases (xs ++ ys) ≡ phases xs ++ phases ys
phases-append [] ys = refl
phases-append (remote_create path ∷ xs) ys = ap (λ (z : List ℕ). 0 ∷ z) (phases-append xs ys)
phases-append (remote_upload f ∷ xs) ys = ap (λ (z : List ℕ). 1 ∷ z) (phases-append xs ys)
phases-append (remote_delete path ∷ xs) ys = ap (λ (z : List ℕ). 2 ∷ z) (phases-append xs ys)
phases-append (repository_call c ∷ xs) ys = phases-append xs ys
phases-append (operation_started o ∷ xs) ys = phases-append xs ys
phases-append (cancellation_read ∷ xs) ys = phases-append xs ys
phases-append (metadata_read path ∷ xs) ys = phases-append xs ys
phases-append (staging_removed path ∷ xs) ys = phases-append xs ys
phases-append (run_started trigger ∷ xs) ys = phases-append xs ys
phases-append (lock_requested owner ∷ xs) ys = phases-append xs ys
phases-append (question q ∷ xs) ys = phases-append xs ys

Between-append :
    (low mid mid' high : ℕ) (xs ys : List ℕ)
    → mid ≤ mid'
    → Between mid' high xs
    → Between low mid ys
    → low ≤ mid
    → mid' ≤ high
    → Between low high (xs ++ ys)
Between-append low mid mid' high [] [] o h k l m = tt
Between-append low mid mid' high [] (y ∷ ys) o h k l m =
    ((k.0.0, omega (arith, k.0.1)), Between-append low mid mid' high [] ys o h k.1 l m)
Between-append low mid mid' high (x ∷ xs) ys o h k l m =
    ((omega (arith, h.0.0), h.0.1), Between-append low mid mid' high xs ys o h.1 k l m)

above : (x mid low : ℕ) (ys : List ℕ) → mid ≤ x → Between low mid ys → All (λ y. y ≤ x) ys
above x mid low [] h k = tt
above x mid low (y ∷ ys) h k = (omega (arith, k.0.1), above x mid low ys h k.1)

All-append :
    (x : ℕ) (xs ys : List ℕ)
    → All (λ y. y ≤ x) xs
    → All (λ y. y ≤ x) ys
    → All (λ y. y ≤ x) (xs ++ ys)
All-append x [] ys h k = k
All-append x (y ∷ xs) ys h k = (h.0, All-append x xs ys h.1 k)

IsOrdered-append :
    (low mid mid' high : ℕ) (xs ys : List ℕ)
    → mid ≤ mid'
    → Between mid' high xs
    → Between low mid ys
    → IsOrdered xs
    → IsOrdered ys
    → IsOrdered (xs ++ ys)
IsOrdered-append low mid mid' high [] ys o h k p q = q
IsOrdered-append low mid mid' high (x ∷ xs) ys o h k p q = (
  All-append x xs ys p.0 (above x mid low ys (omega (arith, h.0.0)) k),
  IsOrdered-append low mid mid' high xs ys o h.1 k p.1 q,
)

-- The requests of the action stand in phases between the two numbers and in order.
pub record Ordered (low high : ℕ) {A : Type 0} (m : M A) : Type 0 where
  pub at :
      (s : List Event)
      → (new : List Event) × ((m s).1 ≡ new ++ s)
        × Between low high (phases new)
        × IsOrdered (phases new)

Between-of_phase :
    (n : ℕ) (es : List Event) → All (InPhase n) es → Between n n (phases es) × IsOrdered (phases es)
Between-of_phase n (remote_create path ∷ es) h =
    let (b, o) = Between-of_phase n es h.1 in
    (
      ((omega (arith, h.0), omega (arith, h.0)), b),
      (above 0 n n (phases es) (omega (arith, h.0)) b, o),
    )
Between-of_phase n (remote_upload f ∷ es) h =
    let (b, o) = Between-of_phase n es h.1 in
    (
      ((omega (arith, h.0), omega (arith, h.0)), b),
      (above 1 n n (phases es) (omega (arith, h.0)) b, o),
    )
Between-of_phase n (remote_delete path ∷ es) h =
    let (b, o) = Between-of_phase n es h.1 in
    (
      ((omega (arith, h.0), omega (arith, h.0)), b),
      (above 2 n n (phases es) (omega (arith, h.0)) b, o),
    )
Between-of_phase n [] h = (tt, tt)
Between-of_phase n (repository_call c ∷ es) h = Between-of_phase n es h.1
Between-of_phase n (operation_started o ∷ es) h = Between-of_phase n es h.1
Between-of_phase n (cancellation_read ∷ es) h = Between-of_phase n es h.1
Between-of_phase n (metadata_read path ∷ es) h = Between-of_phase n es h.1
Between-of_phase n (staging_removed path ∷ es) h = Between-of_phase n es h.1
Between-of_phase n (run_started trigger ∷ es) h = Between-of_phase n es h.1
Between-of_phase n (lock_requested owner ∷ es) h = Between-of_phase n es h.1
Between-of_phase n (question q ∷ es) h = Between-of_phase n es h.1

pub Ordered-of_Emits : {A : Type 0} (n : ℕ) (m : M A) → Emits (InPhase n) m → Ordered n n m
Ordered-of_Emits n m k = record {
  at = λ s. let (new, e, h) = k.at s in let (b, o) = Between-of_phase n new h in (new, e, b, o);
}

-- First the requests of one action, then those of the next, in phases that are not earlier.
pub Ordered-bind :
    {A B : Type 0} (low mid mid' high : ℕ) (m : M A) (f : A → M B)
    → low ≤ mid
    → mid ≤ mid'
    → mid' ≤ high
    → Ordered low mid m
    → ((a : A) → Ordered mid' high (f a))
    → Ordered low high (m >>= f)
unfolding ◌>>=◌ continue
Ordered-bind {A} {B} low mid mid' high m f l o u km kf = record {
  at = λ s. let (new, e, b, p) = km.at s in go (m s).0 (m s).1 s new e b p;
}
  where
    go :
        (r : Result A SyncError) (t s new : List Event)
        → t ≡ new ++ s
        → Between low mid (phases new)
        → IsOrdered (phases new)
        → (all : List Event) × ((continue r f t).1 ≡ all ++ s)
          × Between low high (phases all)
          × IsOrdered (phases all)
    go (err x) t s new e b p =
        (new, e, Between-append low mid mid' high [] (phases new) o tt b l u, p)
    go (ok a) t s new e b p =
        let (more, d, c, q) = (kf a).at t in
        (
          more ++ new,
          d ∙ ap (λ (z : List Event). more ++ z) e ∙ sym (append_assoc more new s),
          subst (Between low high) (sym (phases-append more new))
              (Between-append low mid mid' high (phases more) (phases new) o c b l u),
          subst IsOrdered (sym (phases-append more new))
              (IsOrdered-append low mid mid' high (phases more) (phases new) o c b q p),
        )

pub Ordered-if :
    {A : Type 0} (low high : ℕ) (b : Bool) (m n : M A)
    → Ordered low high m
    → Ordered low high n
    → Ordered low high (if b then m else n)
Ordered-if low high true m n km kn = km
Ordered-if low high false m n km kn = kn

pub Ordered-option :
    {A X : Type 0} (low high : ℕ) (o : Option X) (m : M A) (f : X → M A)
    → Ordered low high m
    → ((x : X) → Ordered low high (f x))
    → Ordered low high (elim o [ none ↦ m | some x ↦ f x ])
Ordered-option low high none m f km kf = km
Ordered-option low high (some x) m f km kf = kf x

pub Ordered-widen :
    {A : Type 0} (low low' high high' : ℕ) (m : M A)
    → low' ≤ low
    → high ≤ high'
    → low ≤ high
    → Ordered low high m
    → Ordered low' high' m
Ordered-widen low low' high high' m l h k km = record {
  at = λ s.
      let (new, e, b, p) = km.at s in
      (new, e, subst (Between low' high') (append-nil (phases new)) (widened new b), p);
}
  where
    higher : (ns : List ℕ) → Between low high ns → Between low high' ns
    higher [] b = tt
    higher (n ∷ ns) b = ((b.0.0, omega (arith, b.0.1, h)), higher ns b.1)

    widened :
        (new : List Event) → Between low high (phases new) → Between low' high' (phases new ++ [])
    widened new b =
        Between-append low' low' low high' (phases new) [] l (higher (phases new) b) tt
          (omega arith) (omega (arith, l, h, k))
