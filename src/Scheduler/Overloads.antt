-- ===== src/Scheduler/Overloads.antt =====
-- The overloads of `task_scheduler::add_task`, `wait_for` and `schedule_task` of
-- include/daw/fs/task_scheduler.h: what they make of a function and a semaphore, and send.
use function_stream.Base.{
  ℕ, ◌+◌, ◌%◌, ◌≡◌, ◌<◌, Bool, true, List, Option, none, some, Outcome, returns, ◌>>=◌, deref,
  arith, if◌then◌else◌,
}
use Prim.Native.Nat.{◌^◌}
use function_stream.Latch.{FixedCntSem}
use function_stream.Queue.{ConcurrentQueue, Round, Spin, stopped, spinning}
use function_stream.Scheduler
use function_stream.Scheduler.{FixedTaskScheduler, size, started, get_task_id, send_task}
use function_stream.Scheduler.Sending.{Placed}
use function_stream.Scheduler.Calls
use function_stream.Scheduler.Calls.{add_task-places}
use function_stream.Scheduler.Facade.{Handle}
use function_stream.Task.{FixedTask, task_of, task_with, run_task, executed, run_task-executes}

-- `unique_task_t( task_wrapper( id, get_handle( ), func ), sem )`: the task, with the queue that its
-- wrapper goes on with. The function none is `empty_task`, which does nothing.
pub record WrappedTask (F : Type 0) : Type 0 where
  pub id : ℕ
  pub func : Option F
  pub task : FixedTask

module _ {F : Type 0} where
  abbrev pub wrapped : ℕ → F → WrappedTask F
  wrapped id func = record { id = id; func = some func; task = task_of }

  abbrev pub wrapped_with : ℕ → Option F → FixedCntSem → WrappedTask F
  wrapped_with id func sem = record { id = id; func = func; task = task_with true sem }

  module _ (on free : ℕ → Bool) (acquired : Bool) (rounds : List (Round (WrappedTask F)))
      (h : Handle (WrappedTask F)) where
    -- `add_task( task, id )`.
    unfoldable pub add_task_to : F → ℕ → Outcome (Spin (Bool × FixedTaskScheduler (WrappedTask F)))
    add_task_to func id = do ts ← deref h; send_task on free acquired rounds (wrapped id func) id ts

    -- `add_task( task, sem, id )`.
    unfoldable pub add_task_with_to :
        Option F → FixedCntSem → ℕ → Outcome (Spin (Bool × FixedTaskScheduler (WrappedTask F)))
    add_task_with_to func sem id = do
      ts ← deref h
      send_task on free acquired rounds (wrapped_with id func sem) id ts

  module _ (on free : ℕ → Bool) (acquired : Bool) (rounds : List (Round (WrappedTask F)))
      (h : Handle (WrappedTask F)) where
    -- The overloads without an id draw one first.
    unfoldable pub add_task : F → Outcome (Spin (Bool × FixedTaskScheduler (WrappedTask F)))
    unfolding add_task_to
    add_task func = do
      ts ← deref h
      (id, ts') ← get_task_id ts
      add_task_to on free acquired rounds (some ts') func id

    unfoldable pub add_task_with :
        Option F → FixedCntSem → Outcome (Spin (Bool × FixedTaskScheduler (WrappedTask F)))
    unfolding add_task_with_to
    add_task_with func sem = do
      ts ← deref h
      (id, ts') ← get_task_id ts
      add_task_with_to on free acquired rounds (some ts') func sem id

  module _ (on free : ℕ → Bool) (acquired : Bool) (rounds : List (Round (WrappedTask F)))
      (h : Handle (WrappedTask F)) where
    -- `add_task( sem )`.
    unfoldable pub add_empty_task :
        FixedCntSem → Outcome (Spin (Bool × FixedTaskScheduler (WrappedTask F)))
    unfolding add_task_with
    add_empty_task sem = add_task_with on free acquired rounds h none sem

    unfoldable pub schedule_task :
        FixedCntSem → F → Outcome (Spin (Bool × FixedTaskScheduler (WrappedTask F)))
    unfolding add_task_with
    schedule_task sem func = add_task_with on free acquired rounds h (some func) sem

-- `wait_for`: the wait in `wait_for_scope`, `passes` being whether the object that is waited for lets
-- pass, and the scheduler behind it.
unfoldable pub wait_for : {T : Type 0} → Bool → Handle T → Outcome (Spin (FixedTaskScheduler T))
wait_for passes h = do
  ts ← deref h
  returns (if passes then stopped (Scheduler.wait_for_scope true ts) else spinning)

-- The task that is sent.
abbrev pub sent_task :
    {F : Type 0} → Option F → FixedCntSem → FixedTaskScheduler (WrappedTask F) → WrappedTask F
sent_task func sem ts = wrapped_with (ts.task_count % ts.num_threads) func sem

module _ {F : Type 0} (on free : ℕ → Bool) (func : Option F) (sem : FixedCntSem)
    (ts : FixedTaskScheduler (WrappedTask F)) (n : ℕ) (acquired : Bool)
    (rounds : List (Round (WrappedTask F))) where
  -- While a scheduler with a queue for each thread is started and some queue's mutex is free, a call of
  -- `add_task` with a semaphore, and so `schedule_task` and `add_task( sem )`, returns true and has put
  -- one task at the back of exactly one queue; it goes on with an existing queue, and running it
  -- leaves the semaphore as it was before the call.
  pub add_task_with-runs :
      started ts ≡ true
      → ((m : ℕ) → on m ≡ true)
      → ts.num_threads ≡ size ts
      → n < size ts
      → free n ≡ true
      → (k : ℕ) × (qs : List (ConcurrentQueue (WrappedTask F))) × Placed on free
          (sent_task func sem ts)
          k
          ts.tasks
          qs
        × (add_task_with on free acquired rounds (some ts) func sem
            ≡ returns (
                stopped
                  (true, record ts { tasks = qs; task_count = (ts.task_count + 1) % 2 ^ 64 })))
        × ((sent_task func sem ts).id < size ts)
        × (run_task true (sent_task func sem ts).task ≡ returns (executed sem))
  unfolding add_task_with add_task_with_to Calls.add_task get_task_id
  add_task_with-runs go on_all threads h f =
      let (k, qs, p, e) =
        add_task-places on free (sent_task func sem ts) ts n acquired rounds go on_all threads h
          f in
      (k, qs, p, ground (arith, e), grind arith, (run_task-executes sem).0)
