-- ===== src/Sync/Engine/Returns.antt =====
-- What an action returns when it succeeds, one rule for each way to build an action.
pub mod Canonical
pub mod Uploads
use mathlib.Core.Path.{subst}
use ya_disk_sync.Base.{
  ◌≡◌, refl, ap, sym, Bool, true, false, Option, none, some, List, ◌++◌, All, if◌then◌else◌,
}
use ya_disk_sync.Base.Result.{Result, ok, err}
use ya_disk_sync.Base.Exec.{pure, fail, continue, ◌>>=◌, ◌>>◌}
use ya_disk_sync.Sync.Engine.World.{SyncError, Event, M, attempt}
use ya_disk_sync.Sync.Engine.Emits.{Emits, Emits-after}

abbrev pub OnOk : {A : Type 0} → (A → Type 0) → Result A SyncError → Type 0
OnOk Q (ok a) = Q a
OnOk Q (err e) = Unit

pub record Returns {A : Type 0} (Q : A → Type 0) (m : M A) : Type 0 where
  pub at : (s : List Event) → OnOk Q (m s).0

module _ {A : Type 0} {Q : A → Type 0} where
  pub Returns-pure : (a : A) → Q a → Returns Q (pure {E = SyncError} a)
  unfolding pure
  Returns-pure a h = record { at = λ s. h }

  pub Returns-fail : (e : SyncError) → Returns Q (fail e)
  unfolding fail
  Returns-fail e = record { at = λ s. tt }

  pub Returns-if :
      (b : Bool) (m n : M A) → Returns Q m → Returns Q n → Returns Q (if b then m else n)
  Returns-if true m n km kn = km
  Returns-if false m n km kn = kn

  pub Returns-option :
      {X : Type 0} (o : Option X) (m : M A) (f : X → M A)
      → Returns Q m
      → ((x : X) → Returns Q (f x))
      → Returns Q (elim o [ none ↦ m | some x ↦ f x ])
  Returns-option none m f km kf = km
  Returns-option (some x) m f km kf = kf x

module _ {A B : Type 0} {R : A → Type 0} {Q : B → Type 0} where
  -- The second action may rely on what the first one returns.
  pub Returns-bind_with :
      (m : M A) (f : A → M B)
      → Returns R m
      → ((a : A) → R a → Returns Q (f a))
      → Returns Q (m >>= f)
  unfolding ◌>>=◌ continue
  Returns-bind_with m f km kf = record { at = λ s. go (m s).0 (m s).1 (km.at s) }
    where
      go : (r : Result A SyncError) (t : List Event) → OnOk R r → OnOk Q (continue r f t).0
      go (ok a) t h = (kf a h).at t
      go (err e) t h = tt

pub Returns-any : {A : Type 0} (m : M A) → Returns (λ _. Unit) m
Returns-any {A} m = record { at = λ s. go (m s).0 }
  where
    go : (r : Result A SyncError) → OnOk (λ _. Unit) r
    go (ok a) = tt
    go (err e) = tt

module _ {A B : Type 0} {Q : B → Type 0} where
  pub Returns-bind : (m : M A) (f : A → M B) → ((a : A) → Returns Q (f a)) → Returns Q (m >>= f)
  Returns-bind m f kf = Returns-bind_with m f (Returns-any m) (λ a _. kf a)

  pub Returns-then : (m : M A) (k : M B) → Returns Q k → Returns Q (m >> k)
  unfolding ◌>>◌
  Returns-then m k kk = Returns-bind m (λ _. k) (λ _. kk)

module _ {A : Type 0} {Q : A → Type 0} where
  pub Returns-attempt : (m : M A) → Returns Q m → Returns (OnOk Q) (attempt m)
  unfolding attempt
  Returns-attempt m km = record { at = km.at }

-- The second action may rely on what the first one returns.
pub Emits-bind_with :
    {P : Event → Type 0} {A B : Type 0} {R : A → Type 0} (m : M A) (f : A → M B)
    → Emits P m
    → Returns R m
    → ((a : A) → R a → Emits P (f a))
    → Emits P (m >>= f)
unfolding ◌>>=◌ continue
Emits-bind_with {P} {A} {B} {R} m f km rm kf = record {
  at = λ s. let (new, e, h) = km.at s in go (m s).0 (m s).1 s new (rm.at s) e h;
}
  where
    go :
        (r : Result A SyncError) (t s new : List Event)
        → OnOk R r
        → t ≡ new ++ s
        → All P new
        → (all : List Event) × ((continue r f t).1 ≡ all ++ s) × All P all
    go (err x) t s new q e h = (new, e, h)
    go (ok a) t s new q e h = Emits-after (kf a q) t s new e h

pub ruleset returns_rules = (Returns-pure, Returns-fail, Returns-if, Returns-bind, Returns-then)
