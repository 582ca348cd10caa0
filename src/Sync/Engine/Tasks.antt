-- ===== src/Sync/Engine/Tasks.antt =====
-- A `JoinSet`: tasks that run at once and are joined in any order.
use ya_disk_sync.Base.{ℕ, zero, suc, Bool, true, false, List, [], ◌∷◌, length, if◌then◌else◌}
use ya_disk_sync.Base.Result.{Result, ok, err}
use ya_disk_sync.Base.Text.{Text}
use ya_disk_sync.Base.Exec.{pure, ◌>>=◌}
use ya_disk_sync.Sync.Engine.World.{
  SyncError, join_error, Event, question, about_finished_task, Environment, M, ask, lift,
}
use ya_disk_sync.Sync.Engine.Emits.{Emits, Emits-pure, Emits-bind, Emits-if, Emits-ask, Emits-lift}

-- The task at the index, the last one past the end, and the others.
unfoldable pub pick : {T : Type 0} → ℕ → T → List T → T × List T
pick i t [] = (t, [])
pick zero t (u ∷ us) = (t, u ∷ us)
pick (suc i) t (u ∷ us) = let (x, rest) = pick i u us in (x, t ∷ rest)

-- The `?` on a joined task.
unfoldable pub or_join_error : Result ℕ Text → Result ℕ SyncError
or_join_error (ok i) = ok i
or_join_error (err e) = err (join_error e)

module _ {T S : Type 0} (env : Environment) (outcome : T → S → M (Bool × S)) where
  -- `while let Some(outcome) = tasks.join_next().await`: the number counts the tasks that are left.
  -- The loop ends early if an outcome says so; the tasks that are left are then dropped.
  unfoldable pub join_rounds : ℕ → List T → S → M (Bool × S)
  join_rounds zero tasks s = pure (false, s)
  join_rounds (suc n) [] s = pure (false, s)
  join_rounds (suc n) (t ∷ ts) s = do
    answer ← ask about_finished_task env.finished_task
    i ← lift (or_join_error answer)
    next ← outcome (pick i t ts).0 s
    if next.0 then pure (true, next.1) else join_rounds n (pick i t ts).1 next.1

  unfoldable pub join_all : List T → S → M (Bool × S)
  unfolding join_rounds
  join_all tasks s = join_rounds (length tasks) tasks s

  Emits-join_rounds :
      {P : Event → Type 0}
      → P (question about_finished_task)
      → ((t : T) (s : S) → Emits P (outcome t s))
      → (n : ℕ) (tasks : List T) (s : S) → Emits P (join_rounds n tasks s)
  unfolding join_rounds
  Emits-join_rounds q k zero tasks s = Emits-pure (false, s)
  Emits-join_rounds q k (suc n) [] s = Emits-pure (false, s)
  Emits-join_rounds q k (suc n) (t ∷ ts) s =
      Emits-bind _ _ (Emits-ask about_finished_task env.finished_task q) (λ answer.
        Emits-bind _ _ (Emits-lift (or_join_error answer)) (λ i.
          Emits-bind _ _ (k (pick i t ts).0 s) (λ next.
            Emits-if next.0 _ _ (Emits-pure (true, next.1))
              (Emits-join_rounds q k n (pick i t ts).1 next.1))))

  pub Emits-join_all :
      {P : Event → Type 0} (tasks : List T) (s : S)
      → P (question about_finished_task)
      → ((t : T) (s : S) → Emits P (outcome t s))
      → Emits P (join_all tasks s)
  unfolding join_all
  Emits-join_all tasks s q k = Emits-join_rounds q k (length tasks) tasks s
