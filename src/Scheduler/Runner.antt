-- ===== src/Scheduler/Runner.antt =====
-- `task_scheduler::task_runner` of src/task_scheduler.cpp: the loop of a worker thread.
use function_stream.Base.{
  ℕ, zero, suc, ◌<◌, ◌≤◌, ◌≡◌, refl, ap, ◌∙◌, Bool, true, not, List, [], ◌∷◌, length, get_elem?,
  modify, Option, none, some, if◌then◌else◌, Outcome, returns, throws, faults, ◌>>=◌, arith, inl,
  inr, length-eq-zero,
}
use function_stream.Queue.{
  ConcurrentQueue, Round, stopped, spinning, spin_pop_front, pop_loop, try_pop_front,
}
use function_stream.Scheduler.{
  FixedTaskScheduler, started, size, run_next_task, wait_for_task_from_pool, sweep, steal_order,
  with_queues,
}
use function_stream.Scheduler.Stealing.{run_next_task-finds}
use function_stream.Scheduler.Wrapped.{count_tasks, count_tasks-modify, length-modify, IsQuiet}

-- Where a worker is after some rounds: it has returned, it waits for a task, or it goes on.
pub data Status : Type 0 where
  returned waits running : Status

module _ {T : Type 0} (free : ℕ → Bool)
    (perform : T → FixedTaskScheduler T → FixedTaskScheduler T) where
  -- A task is put before those that follow it.
  abbrev ran :
      T
      → Outcome (List T × Status × FixedTaskScheduler T)
      → Outcome (List T × Status × FixedTaskScheduler T)
  ran t (returns (ts, b, s)) = returns (t ∷ ts, b, s)
  ran t throws = throws
  ran t faults = faults

  -- Some rounds of the loop: the tasks that it takes from the pool and runs, in order, where it is
  -- then, and the scheduler. `perform t` is what `run_task` does to the scheduler; an empty task is run
  -- too, as `resend`. `acquired` and `rounds` are those of the spinning pop; a worker that waits at the
  -- end of them has left the scheduler as it was.
  module _ (resend : FixedTaskScheduler T → FixedTaskScheduler T) (acquired : Bool)
      (rounds : List (Round T)) where
    unfoldable pub task_runner :
        ℕ → ℕ → FixedTaskScheduler T → Outcome (List T × Status × FixedTaskScheduler T)
    task_runner zero id s = returns ([], running, s)
    task_runner (suc more) id s = if not (started s) then returns ([], returned, s) else (do
      found ← wait_for_task_from_pool free acquired rounds id s
      elim found [
        | spinning ↦ returns ([], waits, s)
        | stopped (none, s') ↦ task_runner more id (resend s')
        | stopped (some t, s') ↦ ran t (task_runner more id (perform t s'))
      ])

pub some-lt : {A : Type 0} (xs : List A) (n : ℕ) {x : A} → get_elem? xs n ≡ some x → n < length xs
some-lt [] n e = absurd (ground arith)
some-lt (x ∷ xs) zero e = omega arith
some-lt (x ∷ xs) (suc n) e = omega (arith, some-lt xs n e)

module _ {T : Type 0} where
  -- What a sweep came to, from what became of the scheduler.
  sweep-of :
      (s s' : FixedTaskScheduler T) (found : Option T)
      (o : Outcome (Option T × List (ConcurrentQueue T)))
      → (o >>= with_queues s) ≡ returns (found, s')
      → o ≡ returns (found, s'.tasks)
  sweep-of s s' found (returns (f, qs)) e = ap (λ o. o >>= λ (f, s). returns (f, s.tasks)) e
  sweep-of s s' found throws e = cc
  sweep-of s s' found faults e = cc

  pub no_items :
      (qs : List (ConcurrentQueue T))
      → ((n : ℕ) (t : T) (rest : List T) → get_elem? qs n ≡ some (record { items = t ∷ rest }) → ⊥)
      → count_tasks qs ≡ 0
  no_items [] h = refl
  no_items (q ∷ qs) h = omega (arith, own q.items refl, no_items qs (λ n. h (suc n)))
    where
      own : (items : List T) → q.items ≡ items → length q.items ≡ 0
      own [] e = ap length e
      own (t ∷ rest) e = absurd (h 0 t rest (ap (λ l. some (record { items = l })) e))

module _ {T : Type 0} (free : ℕ → Bool) (acquired : Bool) (id : ℕ) (s : FixedTaskScheduler T) where
  pub wait-finds :
      (s' : FixedTaskScheduler T) (t : T)
      → started s ≡ true
      → id < size s
      → run_next_task free id s ≡ returns (some t, record s { tasks = s'.tasks })
      → wait_for_task_from_pool free acquired [] id s
        ≡ returns (stopped (some t, record s { tasks = s'.tasks }))
  unfolding wait_for_task_from_pool run_next_task
  wait-finds s' t go h e =
      ground (arith, sweep-of s _ (some t) (sweep free (steal_order id (size s)) s.tasks) e)

  pub wait-waits :
      started s ≡ true
      → id < size s
      → get_elem? s.tasks id ≡ some (record { items = [] })
      → run_next_task free id s ≡ returns (none, s)
      → wait_for_task_from_pool free acquired [] id s ≡ returns spinning
  unfolding wait_for_task_from_pool run_next_task spin_pop_front pop_loop try_pop_front
  wait-waits go h q e =
      ground (arith, q, sweep-of s s none (sweep free (steal_order id (size s)) s.tasks) e)

module _ {T : Type 0} (free : ℕ → Bool) (perform : T → FixedTaskScheduler T → FixedTaskScheduler T)
    (resend : FixedTaskScheduler T → FixedTaskScheduler T) (acquired : Bool) where
  -- The worker has run some tasks, the queues are empty, and it waits.
  abbrev pub Emptied :
      FixedTaskScheduler T → Outcome (List T × Status × FixedTaskScheduler T) → Type 0
  Emptied s o =
      (ts : List T) × (s' : FixedTaskScheduler T) × (o ≡ returns (ts, waits, s'))
      × (length ts ≤ count_tasks s.tasks)
      × (count_tasks s'.tasks ≡ 0)

  pub own_empty :
      (id : ℕ) (s : FixedTaskScheduler T)
      → id < size s
      → count_tasks s.tasks ≡ 0
      → get_elem? s.tasks id ≡ some (record { items = [] })
  own_empty id s h e = empty_at s.tasks id h e
    where
      empty_at :
          (qs : List (ConcurrentQueue T)) (n : ℕ)
          → n < length qs
          → count_tasks qs ≡ 0
          → get_elem? qs n ≡ some (record { items = [] })
      empty_at [] n h e = absurd (omega arith)
      empty_at (q ∷ qs) zero h e =
          ap (λ l. some (record { items = l })) (length-eq-zero q.items (omega arith))
      empty_at (q ∷ qs) (suc n) h e = empty_at qs n (omega arith) (omega arith)

  -- While a scheduler is started, no mutex is held by another thread, and the tasks add no others and
  -- leave the scheduler started, a worker of any of its queues has emptied all the queues after as many
  -- rounds as there were tasks, and then, if none comes in, it waits.
  pub task_runner-empties :
      (more id : ℕ) (s : FixedTaskScheduler T)
      → ((n : ℕ) → free n ≡ true)
      → ((t : T) → IsQuiet free perform t)
      → id < size s
      → count_tasks s.tasks < more
      → started s ≡ true
      → Emptied s (task_runner free perform resend acquired [] more id s)
  unfolding task_runner
  task_runner-empties zero id s f p h k go = absurd (omega arith)
  task_runner-empties (suc more) id s f p h k go = elim (run_next_task-finds free id s h) [
    | inl (n, t, rest, g, e) ↦
        let s' : FixedTaskScheduler T = record s {
          tasks = modify s.tasks n (λ _. record { items = rest });
        } in
        let c = count_tasks-modify s.tasks n t rest g.1 in
        let (fewer, same_size, same_start) = p t s' in
        let (ts, s'', r, m, z) =
          task_runner-empties more id (perform t s') f p
            (omega (arith, same_size, length-modify s.tasks n (λ _. record { items = rest })))
            (omega (arith, c, fewer)) (same_start ∙ go) in
        (
          t ∷ ts,
          s'',
          ground (arith, wait-finds free acquired id s s' t go h e, r),
          omega (arith, m, c, fewer),
          z,
        )
    | inr (dry, e) ↦
        let z = no_items s.tasks (λ n t rest g. dry (n, t, rest, some-lt s.tasks n g, (f n, g))) in
        (
          [],
          s,
          ground (arith, wait-waits free acquired id s go h (own_empty id s h z) e),
          omega (arith, z),
          z,
        )
  ]
