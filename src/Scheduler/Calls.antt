-- ===== src/Scheduler/Calls.antt =====
-- `task_scheduler::add_task` of include/daw/fs/task_scheduler.h, and the overload of
-- `wait_for_task_from_pool` that a temporary task runner calls.
use function_stream.Base.{
  ℕ, ◌+◌, ◌%◌, ◌<◌, ◌≡◌, Bool, true, not, List, [], ◌∷◌, Option, none, some, get_elem?,
  if◌then◌else◌, Outcome, returns, ◌>>=◌, deref, arith, modify,
}
use Prim.Native.Nat.{◌^◌}
use function_stream.Queue.{ConcurrentQueue, Round, Spin, stopped, spinning, try_pop_front}
use function_stream.Scheduler.{
  FixedTaskScheduler, size, started, ring, stop_or, get_task_id, send_task, found_or_own,
}
use function_stream.Scheduler.Sending.{Placed, send_task-places}

module _ {T : Type 0} where
  -- The task id is drawn first, then the task is sent to its queue.
  unfoldable pub add_task :
      (ℕ → Bool)
      → (ℕ → Bool)
      → Bool
      → List (Round T)
      → T
      → FixedTaskScheduler T
      → Outcome (Spin (Bool × FixedTaskScheduler T))
  add_task on free acquired rounds tsk ts = do
    (id, ts') ← get_task_id ts
    send_task on free acquired rounds tsk id ts'

  -- The loop over the other queues, which ends without a task when `started( )`, here `on m`, is false.
  unfoldable pub sweep_started :
      (ℕ → Bool)
      → (ℕ → Bool)
      → List ℕ
      → List (ConcurrentQueue T)
      → Outcome (Option T × List (ConcurrentQueue T))
  sweep_started on free [] qs = returns (none, qs)
  sweep_started on free (m ∷ ms) qs =
      let rest = sweep_started on free ms qs in
      if on m
      then (do q ← deref (get_elem? qs m); stop_or (try_pop_front (free m) q) m qs rest)
      else returns (none, qs)

  -- What follows the attempt on the own queue. The loop comes back to `id` if there is such a thread.
  abbrev pub after_own :
      (ℕ → Bool)
      → (ℕ → Bool)
      → Bool
      → List (Round T)
      → ℕ
      → FixedTaskScheduler T
      → Option (List ℕ)
      → Option T × ConcurrentQueue T
      → Outcome (Spin (Option T × FixedTaskScheduler T))
  after_own on free acquired rounds id ts others (some t, q) =
      returns (stopped (some t, record ts { tasks = modify ts.tasks id (λ _. q) }))
  after_own on free acquired rounds id ts none (none, q) = returns spinning
  after_own on free acquired rounds id ts (some ms) (none, q) = do
    (found, qs) ← sweep_started on free ms ts.tasks
    found_or_own acquired rounds id (record ts { tasks = qs }) found

  -- `wait_for_task_from_pool( id, sem )`: the own queue, the others while the scheduler is started, and
  -- then the spinning pop, whose rounds also ask whether the semaphore is still closed.
  unfoldable pub wait_for_task_until :
      (ℕ → Bool)
      → (ℕ → Bool)
      → Bool
      → List (Round T)
      → ℕ
      → FixedTaskScheduler T
      → Outcome (Spin (Option T × FixedTaskScheduler T))
  wait_for_task_until on free acquired rounds id ts =
      if not (started ts) then returns (stopped (none, ts)) else (do
        q ← deref (get_elem? ts.tasks id)
        after_own on free acquired rounds id ts
            (ring ts.num_threads ts.num_threads id ((id + 1) % ts.num_threads))
            (try_pop_front (free id) q))

-- While a scheduler with a queue for each thread is started and some queue's mutex is free,
-- `add_task` returns true, has put the task at the back of exactly one queue, and has counted it.
pub add_task-places :
    {T : Type 0} (on free : ℕ → Bool) (tsk : T) (ts : FixedTaskScheduler T) (n : ℕ)
    (acquired : Bool) (rounds : List (Round T))
    → started ts ≡ true
    → ((m : ℕ) → on m ≡ true)
    → ts.num_threads ≡ size ts
    → n < size ts
    → free n ≡ true
    → (k : ℕ) × (qs : List (ConcurrentQueue T)) × Placed on free tsk k ts.tasks qs
      × (add_task on free acquired rounds tsk ts
          ≡ returns
              (stopped (true, record ts { tasks = qs; task_count = (ts.task_count + 1) % 2 ^ 64 })))
unfolding add_task get_task_id
add_task-places on free tsk ts n acquired rounds go on_all threads h f =
    let counted : FixedTaskScheduler _ = record ts { task_count = (ts.task_count + 1) % 2 ^ 64 } in
    let (k, qs, p, e) =
      send_task-places on free tsk counted (ts.task_count % ts.num_threads) n acquired rounds go
        on_all threads (grind arith) h f in
    (k, qs, p, ground (arith, e))
