-- ===== src/Scheduler/Wrapped.antt =====
-- include/daw/fs/impl/task_wrapper.h: the task that `add_task` makes of a function, which goes on with
-- other tasks of the scheduler.
use function_stream.Base.{
  ℕ, zero, suc, ◌+◌, ◌<◌, ◌≤◌, ◌≡◌, refl, ap, ◌∙◌, Bool, true, false, not, List, [], ◌∷◌, length,
  get_elem?, modify, none, some, if◌then◌else◌, Outcome, returns, ◌>>=◌, arith, inl, inr,
}
use function_stream.Queue.{ConcurrentQueue, Spin, stopped, spinning}
use function_stream.Scheduler.{FixedTaskScheduler, started, size, run_next_task}
use function_stream.Scheduler.Stealing.{Gives, run_next_task-finds}

-- `perform t ts` is the scheduler after task `t`, which may add tasks, or stop it.
module _ {T : Type 0} (free : ℕ → Bool)
    (perform : T → FixedTaskScheduler T → FixedTaskScheduler T) where
  -- A task is put before those that follow it.
  abbrev ran :
      T
      → Outcome (Spin (List T × FixedTaskScheduler T))
      → Outcome (Spin (List T × FixedTaskScheduler T))
  ran t (returns (stopped (ts, s))) = returns (stopped (t ∷ ts, s))
  ran t o = o

  -- `while( self->started( ) and self->run_next_task( id ) )`: the tasks that it runs, in order.
  -- `spinning` says that the fuel ran out.
  unfoldable pub run_loop :
      ℕ → ℕ → FixedTaskScheduler T → Outcome (Spin (List T × FixedTaskScheduler T))
  run_loop zero id s = returns spinning
  run_loop (suc fuel) id s = if not (started s) then returns (stopped ([], s)) else (do
    (found, s') ← run_next_task free id s
    elim found [
      | none ↦ returns (stopped ([], s'))
      | some t ↦ ran t (run_loop fuel id (perform t s'))
    ])

  -- `task_wrapper::operator( )`, `handle` being whether its handle still refers to the scheduler.
  unfoldable pub task_wrapper :
      Bool → T → ℕ → ℕ → FixedTaskScheduler T → Outcome (Spin (List T × FixedTaskScheduler T))
  unfolding run_loop
  task_wrapper handle func fuel id s =
      if not handle then returns (stopped ([], s)) else ran func (run_loop fuel id (perform func s))

-- The tasks that stand in the queues.
abbrev pub count_tasks : {T : Type 0} → List (ConcurrentQueue T) → ℕ
count_tasks [] = 0
count_tasks (q ∷ qs) = length q.items + count_tasks qs

pub count_tasks-modify :
    {T : Type 0} (qs : List (ConcurrentQueue T)) (n : ℕ) (t : T) (rest : List T)
    → get_elem? qs n ≡ some (record { items = t ∷ rest })
    → count_tasks qs ≡ suc (count_tasks (modify qs n (λ _. record { items = rest })))
count_tasks-modify [] n t rest e = ground arith
count_tasks-modify (q ∷ qs) zero t rest e = ground (arith, e)
count_tasks-modify (q ∷ qs) (suc n) t rest e = omega (arith, count_tasks-modify qs n t rest e)

pub length-modify :
    {A : Type 0} (xs : List A) (n : ℕ) (f : A → A) → length (modify xs n f) ≡ length xs
length-modify [] n f = refl
length-modify (x ∷ xs) zero f = refl
length-modify (x ∷ xs) (suc n) f = ap suc (length-modify xs n f)

module _ {T : Type 0} (free : ℕ → Bool)
    (perform : T → FixedTaskScheduler T → FixedTaskScheduler T) where
  -- No queue can give a task.
  abbrev pub IsDry : FixedTaskScheduler T → Type 0
  IsDry s = ¬ ((n : ℕ) × (t : T) × (rest : List T) × (n < size s) × Gives free s.tasks n t rest)

  -- A task that adds no task, and neither changes the number of queues nor starts or stops the
  -- scheduler; it may run others.
  abbrev pub IsQuiet : T → Type 0
  IsQuiet t =
      (s : FixedTaskScheduler T)
      → (count_tasks (perform t s).tasks ≤ count_tasks s.tasks)
        × (size (perform t s) ≡ size s)
        × (started (perform t s) ≡ started s)

  -- The loop has run some tasks, and left nothing that it could run.
  abbrev pub Drained :
      FixedTaskScheduler T → Outcome (Spin (List T × FixedTaskScheduler T)) → Type 0
  Drained s o =
      (ts : List T) × (s' : FixedTaskScheduler T) × (o ≡ returns (stopped (ts, s')))
      × (length ts + count_tasks s'.tasks ≤ count_tasks s.tasks)
      × IsDry s'

  run_loop-drains :
      (fuel id : ℕ) (s : FixedTaskScheduler T)
      → ((t : T) → IsQuiet t)
      → started s ≡ true
      → id < size s
      → count_tasks s.tasks < fuel
      → Drained s (run_loop free perform fuel id s)
  unfolding run_loop
  run_loop-drains zero id s p go h k = absurd (omega arith)
  run_loop-drains (suc fuel) id s p go h k = elim (run_next_task-finds free id s h) [
    | inl (n, t, rest, g, e) ↦
        let s' : FixedTaskScheduler T = record s {
          tasks = modify s.tasks n (λ _. record { items = rest });
        } in
        let c = count_tasks-modify s.tasks n t rest g.1 in
        let (fewer, same_size, same_start) = p t s' in
        let (ts, s'', f, m, dry) =
          run_loop-drains fuel id (perform t s') p (same_start ∙ go)
            (omega (arith, same_size, length-modify s.tasks n (λ _. record { items = rest })))
            (omega (arith, c, fewer)) in
        (t ∷ ts, s'', ground (arith, e, f), omega (arith, m, c, fewer), dry)
    | inr (dry, e) ↦ ([], s, ground (arith, e), omega arith, dry)
  ]

  -- A wrapped task whose handle is expired runs nothing. Any other runs its function and then, where
  -- the tasks add no others and leave the scheduler started, ends after at most as many tasks as stood
  -- in the queues, when no queue whose mutex is free holds any more.
  pub task_wrapper-drains :
      (func : T) (fuel id : ℕ) (s : FixedTaskScheduler T)
      → ((t : T) → IsQuiet t)
      → started s ≡ true
      → id < size s
      → count_tasks s.tasks < fuel
      → (task_wrapper free perform false func fuel id s ≡ returns (stopped ([], s)))
        × ((ts : List T) × (s' : FixedTaskScheduler T) × (task_wrapper free perform true func fuel
                id s
              ≡ returns (stopped (func ∷ ts, s')))
            × (length ts + count_tasks s'.tasks ≤ count_tasks s.tasks)
            × IsDry s')
  unfolding task_wrapper
  task_wrapper-drains func fuel id s p go h k =
      let (fewer, same_size, same_start) = p func s in
      let (ts, s', e, m, dry) =
        run_loop-drains fuel id (perform func s) p (same_start ∙ go) (omega (arith, same_size))
          (omega (arith, fewer)) in
      (refl, (ts, s', ground (arith, e), omega (arith, m, fewer), dry))
