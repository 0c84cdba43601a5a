-- ===== src/Scheduler/Facade.antt =====
-- `task_scheduler` of include/daw/fs/task_scheduler.h and src/task_scheduler.cpp, a `shared_ptr` to a
-- `fixed_task_scheduler`, and `get_task_scheduler`. A handle that was moved from is none, and fails the
-- assertion of every call.
use function_stream.Base.{
  ℕ, zero, suc, ◌+◌, ◌≡◌, refl, Bool, true, false, not, List, Option, none, some, if◌then◌else◌,
  Outcome, returns, ◌>>=◌, deref, arith, ap,
}
use function_stream.Queue.{Round, Spin}
use function_stream.Scheduler
use function_stream.Scheduler.{FixedTaskScheduler, fixed_task_scheduler, start_loop, add_queue}

abbrev pub Handle : Type 0 → Type 0
Handle T = Option (FixedTaskScheduler T)

module _ {T : Type 0} where
  unfoldable pub started : Handle T → Outcome Bool
  started h = do ts ← deref h; returns (Scheduler.started ts)

  unfoldable pub size : Handle T → Outcome ℕ
  size h = do ts ← deref h; returns (Scheduler.size ts)

  -- The handle that `get_handle` makes refers to the scheduler.
  unfoldable pub start : Handle T → Outcome (Handle T)
  start h = do ts ← deref h; returns (some (Scheduler.start true ts))

  unfoldable pub stop : Handle T → Outcome (Handle T)
  stop h = do ts ← deref h; returns (some (Scheduler.stop ts))

  unfoldable pub add_queue_to : ℕ → Handle T → Outcome (Handle T)
  add_queue_to n h = do ts ← deref h; returns (some (add_queue n true ts))

  unfoldable pub send_task :
      (ℕ → Bool)
      → (ℕ → Bool)
      → Bool
      → List (Round T)
      → T
      → ℕ
      → Handle T
      → Outcome (Spin (Bool × FixedTaskScheduler T))
  send_task on free acquired rounds tsk id h = do
    ts ← deref h
    Scheduler.send_task on free acquired rounds tsk id ts

  unfoldable pub run_next_task :
      (ℕ → Bool) → ℕ → Handle T → Outcome (Option T × FixedTaskScheduler T)
  run_next_task free id h = do ts ← deref h; Scheduler.run_next_task free id ts

  unfoldable pub wait_for_task_from_pool :
      (ℕ → Bool)
      → Bool
      → List (Round T)
      → ℕ
      → Handle T
      → Outcome (Spin (Option T × FixedTaskScheduler T))
  wait_for_task_from_pool free acquired rounds id h = do
    ts ← deref h
    Scheduler.wait_for_task_from_pool free acquired rounds id ts

  unfoldable pub get_task_id : Handle T → Outcome (ℕ × FixedTaskScheduler T)
  get_task_id h = do ts ← deref h; Scheduler.get_task_id ts

  -- `task_scheduler( num_threads, block_on_destruction )`.
  unfoldable pub task_scheduler : ℕ → Bool → Outcome (Handle T)
  unfolding start
  task_scheduler num_threads block_on_destruction =
      start (some (fixed_task_scheduler num_threads block_on_destruction))

  -- `get_task_scheduler( )`, `static_ts` being the static object if it was made before, on a machine of
  -- `hardware_concurrency` threads.
  unfoldable pub get_task_scheduler : ℕ → Option (Handle T) → Outcome (Handle T)
  unfolding task_scheduler start started
  get_task_scheduler hardware_concurrency static_ts = do
    ts ← elim static_ts [
      | none ↦ (task_scheduler hardware_concurrency true >>= start)
      | some ts ↦ returns ts
    ]
    on ← started ts
    if not on then start ts else returns ts

  start_loop-continue :
      (n m : ℕ) (handle : Bool) (ts : FixedTaskScheduler T)
      → (start_loop n m handle ts).continue ≡ ts.continue
  unfolding start_loop add_queue
  start_loop-continue n zero handle ts = refl
  start_loop-continue n (suc m) handle ts =
      start_loop-continue (n + 1) m false (add_queue n handle ts)

  start-continue : (ts : FixedTaskScheduler T) → (Scheduler.start true ts).continue ≡ true
  unfolding Scheduler.start
  start-continue ts =
      ground (arith, start_loop-continue 0 ts.num_threads true (record ts { continue = true }))

  -- A scheduler is started after `start`, and not after `stop`.
  pub start-started :
      (ts : FixedTaskScheduler T)
      → ((start (some ts) >>= started) ≡ returns true)
        × ((stop (some ts) >>= started) ≡ returns false)
  unfolding start started stop Scheduler.stop
  start-started ts = (ap returns (start-continue ts), refl)

  ensure-started :
      (ts : FixedTaskScheduler T) (b : Bool)
      → Scheduler.started ts ≡ b
      → ((if not b then start (some ts) else returns (some ts)) >>= started) ≡ returns true
  unfolding start started
  ensure-started ts true e = ap returns e
  ensure-started ts false e = ap returns (start-continue ts)

  -- `get_task_scheduler` gives a scheduler that is started, whether it makes one or finds the one that
  -- it made before, which may have been stopped.
  pub get_task_scheduler-started :
      (n : ℕ) (ts : FixedTaskScheduler T)
      → ((get_task_scheduler n none >>= started) ≡ returns true)
        × ((get_task_scheduler n (some (some ts)) >>= started) ≡ returns true)
  unfolding get_task_scheduler task_scheduler start started
  get_task_scheduler-started n ts = (ensure-started _ _ refl, ensure-started ts _ refl)
