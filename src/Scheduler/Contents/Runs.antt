-- ===== src/Scheduler/Contents/Runs.antt =====
-- From `send_task` to the loop of a worker: what becomes of the tasks that were sent.
use function_stream.Base.{
  ℕ, zero, suc, ◌+◌, ◌<◌, ◌≤◌, ◌≡◌, refl, ap, sym, subst, ◌∙◌, Bool, true, List, [], ◌∷◌, ◌++◌,
  length, modify, returns, arith, inl, inr, Permᴰ, append_assoc, length-append, length-eq-zero,
}
use mathlib.Core.List.Permᴰ
use function_stream.Queue.{ConcurrentQueue, Round, stopped}
use function_stream.Scheduler.{FixedTaskScheduler, started, size, send_task}
use function_stream.Scheduler.Stealing.{run_next_task-finds}
use function_stream.Scheduler.Sending.{send_task-places}
use function_stream.Scheduler.Wrapped.{count_tasks, count_tasks-modify, length-modify}
use function_stream.Scheduler.Runner.{
  task_runner, waits, wait-finds, wait-waits, own_empty, no_items, some-lt,
}
use function_stream.Scheduler.Contents.{contents, contents-pop}

module _ {T : Type 0} where
  contents-empty : (qs : List (ConcurrentQueue T)) → count_tasks qs ≡ 0 → contents qs ≡ []
  contents-empty [] z = refl
  contents-empty (q ∷ qs) z =
      ap (λ l. l ++ contents qs) (length-eq-zero q.items (omega arith))
      ∙ contents-empty qs (omega arith)

  abbrev push_at : List (ConcurrentQueue T) → ℕ → T → List (ConcurrentQueue T)
  push_at qs n tsk = modify qs n (λ q. record { items = q.items ++ tsk ∷ [] })

  contents-push_at :
      (qs : List (ConcurrentQueue T)) (n : ℕ) (tsk : T)
      → n < length qs
      → Permᴰ (contents (push_at qs n tsk)) (tsk ∷ contents qs)
  contents-push_at [] n tsk h = absurd (omega arith)
  contents-push_at (q ∷ qs) zero tsk h =
      subst (λ l. Permᴰ l (tsk ∷ q.items ++ contents qs))
        (sym (append_assoc q.items (tsk ∷ []) (contents qs)))
        (Permᴰ.middle tsk q.items (contents qs))
  contents-push_at (q ∷ qs) (suc n) tsk h =
      Permᴰ.trans (Permᴰ.append_left q.items (contents-push_at qs n tsk (omega arith)))
        (Permᴰ.middle tsk q.items (contents qs))

  count_tasks-push_at :
      (qs : List (ConcurrentQueue T)) (n : ℕ) (tsk : T)
      → count_tasks (push_at qs n tsk) ≤ suc (count_tasks qs)
  count_tasks-push_at [] n tsk = omega arith
  count_tasks-push_at (q ∷ qs) zero tsk = omega (arith, length-append q.items (tsk ∷ []))
  count_tasks-push_at (q ∷ qs) (suc n) tsk = omega (arith, count_tasks-push_at qs n tsk)

module _ {T : Type 0} (free : ℕ → Bool) (resend : FixedTaskScheduler T → FixedTaskScheduler T)
    (acquired : Bool) where
  -- The worker has run exactly the tasks `l`, in some order, and waits at empty queues.
  abbrev pub RunsAll : ℕ → ℕ → FixedTaskScheduler T → List T → Type 0
  RunsAll more id s l =
      (ts : List T) × (s' : FixedTaskScheduler T) × (task_runner free (λ t s. s) resend acquired []
          more id s
        ≡ returns (ts, waits, s'))
      × Permᴰ l ts
      × (contents s'.tasks ≡ [])

  -- A worker whose tasks leave the scheduler alone runs every task that stands in a queue exactly once.
  task_runner-RunsAll :
      (more id : ℕ) (s : FixedTaskScheduler T)
      → ((n : ℕ) → free n ≡ true)
      → id < size s
      → count_tasks s.tasks < more
      → started s ≡ true
      → RunsAll more id s (contents s.tasks)
  unfolding task_runner
  task_runner-RunsAll zero id s f h k go = absurd (omega arith)
  task_runner-RunsAll (suc more) id s f h k go = elim (run_next_task-finds free id s h) [
    | inl (n, t, rest, g, e) ↦
        let s' : FixedTaskScheduler T = record s {
          tasks = modify s.tasks n (λ _. record { items = rest });
        } in
        let (ts, s'', r, p, z) =
          task_runner-RunsAll more id s' f
            (omega (arith, length-modify s.tasks n (λ _. record { items = rest })))
            (omega (arith, count_tasks-modify s.tasks n t rest g.1)) go in
        (
          t ∷ ts,
          s'',
          ground (arith, wait-finds free acquired id s s' t go h e, r),
          Permᴰ.trans (contents-pop s.tasks n t rest g.1) (Permᴰ.cons refl p),
          z,
        )
    | inr (dry, e) ↦
        let z = no_items s.tasks (λ n t rest g. dry (n, t, rest, some-lt s.tasks n g, (f n, g))) in
        (
          [],
          s,
          ground (
            arith,
            wait-waits free acquired id s go h (own_empty free (λ t s. s) resend acquired id s h z)
                e,
          ),
          subst (λ l. Permᴰ l []) (sym (contents-empty s.tasks z)) Permᴰ.nil,
          contents-empty s.tasks z,
        )
  ]

  -- While a scheduler with a queue for each thread is started and no mutex is held by another thread, a
  -- task that is sent is accepted, and a worker of any queue then runs it and every other task that
  -- stands in a queue, each exactly once, and empties all the queues, where the tasks leave the
  -- scheduler alone.
  pub send_task-RunsAll :
      (on : ℕ → Bool) (tsk : T) (ts : FixedTaskScheduler T) (id worker more : ℕ) (locked : Bool)
      (rounds : List (Round T))
      → started ts ≡ true
      → ((m : ℕ) → on m ≡ true)
      → ((m : ℕ) → free m ≡ true)
      → ts.num_threads ≡ size ts
      → id < size ts
      → worker < size ts
      → count_tasks ts.tasks + 1 < more
      → (t : FixedTaskScheduler T) × (send_task on free locked rounds tsk id ts
          ≡ returns (stopped (true, t)))
        × RunsAll more worker t (tsk ∷ contents ts.tasks)
  send_task-RunsAll on tsk ts id worker more locked rounds go on_all f threads h w m =
      let (k, qs, (low, _, p), e) =
        send_task-places on free tsk ts id id locked rounds go on_all threads h h (f id) in
      let t : FixedTaskScheduler T = record ts { tasks = qs } in
      let (run, s', r, perm, z) =
        task_runner-RunsAll more worker t f
          (omega (
            arith,
            ap length p,
            length-modify ts.tasks k (λ q. record { items = q.items ++ tsk ∷ [] }),
          ))
          (omega (arith, ap count_tasks p, count_tasks-push_at ts.tasks k tsk)) go in
      let pushed : Permᴰ (contents qs) (tsk ∷ contents ts.tasks) =
        subst (λ qs. Permᴰ (contents qs) (tsk ∷ contents ts.tasks)) (sym p)
          (contents-push_at ts.tasks k tsk low) in
      (t, e, (run, s', r, Permᴰ.trans (Permᴰ.symm pushed) perm, z))
