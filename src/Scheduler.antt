-- ===== src/Scheduler.antt =====
-- `fixed_task_scheduler` of include/daw/fs/task_scheduler.h and src/task_scheduler.cpp, as one state
-- that calls change. `free n` says whether the mutex of queue `n` can be acquired at the one attempt
-- that a sweep makes on it; a queue index out of range faults.
pub mod Stealing
pub mod Sending
pub mod Growth
pub mod Startup
pub mod Calls
pub mod Ownership
pub mod Wrapped
pub mod Runner
pub mod Facade
pub mod Temporary
pub mod Contents
pub mod Overloads
pub mod Nested
use function_stream.Base.{
  ℕ, zero, suc, ◌+◌, ◌-◌, ◌%◌, Bool, true, false, not, List, [], ◌∷◌, ◌++◌, length, get_elem?,
  modify, map, Option, none, some, replicate, if◌then◌else◌, ◌==◌, ltb, Outcome, returns, faults,
  ◌>>=◌, deref,
}
use Prim.Native.Nat.{◌^◌}
use function_stream.Parallel.{count_up}
use function_stream.Queue.{
  ConcurrentQueue, PushBackResult, failed, success, try_push_back, try_pop_front, empty, Round,
  Spin, stopped, spinning, spin_push_back, spin_pop_front,
}

-- A thread made by `add_queue`: its queue, and whether the handle that it was given refers to the
-- scheduler.
pub record Worker : Type 0 where
  pub id : ℕ
  pub handle : Bool

pub record FixedTaskScheduler (T : Type 0) : Type 0 where
  pub threads : List Worker
  pub num_threads : ℕ
  pub tasks : List (ConcurrentQueue T)
  pub task_count : ℕ
  pub current_id : ℕ
  pub continue : Bool
  pub block_on_destruction : Bool

-- The own queue, those behind it and those before it: the order of `run_next_task` and of
-- `wait_for_task_from_pool`.
unfoldable pub steal_order : ℕ → ℕ → List ℕ
steal_order id n = id ∷ count_up (id + 1) (n - (id + 1)) ++ count_up 0 id

-- `for( m = ( id + 1 ) % m_num_threads; m != id; m = ( m + 1 ) % m_num_threads )`: the queues it
-- visits from `m` on. none says that the fuel ran out; `n` is enough for `id < n`.
unfoldable pub ring : ℕ → ℕ → ℕ → ℕ → Option (List ℕ)
ring zero n id m = if m == id then some [] else none
ring (suc fuel) n id m =
    let rest = ring fuel n id ((m + 1) % n) in
    if m == id then some [] else (elim rest [ none ↦ none | some ms ↦ some (m ∷ ms) ])

-- What the loop of `send_task` over the other queues comes to.
pub data Offer (T : Type 0) : Type 0 where
  placed : List (ConcurrentQueue T) → Offer T
  halted refused : Offer T

module _ {T : Type 0} where
  unfoldable pub fixed_task_scheduler : ℕ → Bool → FixedTaskScheduler T
  fixed_task_scheduler num_threads block_on_destruction = record {
    threads = [];
    num_threads = num_threads;
    tasks = replicate num_threads (record { items = [] });
    task_count = 0;
    current_id = 0;
    continue = false;
    block_on_destruction = block_on_destruction;
  }

  abbrev pub started : FixedTaskScheduler T → Bool
  started ts = ts.continue

  abbrev pub size : FixedTaskScheduler T → ℕ
  size ts = length ts.tasks

  unfoldable pub any_empty : List (ConcurrentQueue T) → Bool
  any_empty [] = false
  any_empty (q ∷ qs) = if empty q then true else any_empty qs

  unfoldable pub has_empty_queue : FixedTaskScheduler T → Bool
  has_empty_queue ts = any_empty ts.tasks

  -- `m_task_count++ % m_num_threads`, the count being a `size_t`; a remainder by zero faults.
  unfoldable pub get_task_id : FixedTaskScheduler T → Outcome (ℕ × FixedTaskScheduler T)
  get_task_id ts =
      if ts.num_threads == 0
      then faults
      else returns
          (ts.task_count % ts.num_threads, record ts { task_count = (ts.task_count + 1) % 2 ^ 64 })

  -- A task that was popped ends the sweep.
  abbrev pub stop_or :
      Option T × ConcurrentQueue T
      → ℕ
      → List (ConcurrentQueue T)
      → Outcome (Option T × List (ConcurrentQueue T))
      → Outcome (Option T × List (ConcurrentQueue T))
  stop_or (some t, q) n qs rest = returns (some t, modify qs n (λ _. q))
  stop_or (none, q) n qs rest = rest

  -- `m_tasks[n].try_pop_front( )` for each `n` of a list, up to the first that gives a task.
  unfoldable pub sweep :
      (ℕ → Bool) → List ℕ → List (ConcurrentQueue T) → Outcome (Option T × List (ConcurrentQueue T))
  sweep free [] qs = returns (none, qs)
  sweep free (n ∷ ns) qs = do
    q ← deref (get_elem? qs n)
    let rest = sweep free ns qs
    stop_or (try_pop_front (free n) q) n qs rest

  abbrev pub with_queues :
      FixedTaskScheduler T
      → Option T × List (ConcurrentQueue T)
      → Outcome (Option T × FixedTaskScheduler T)
  with_queues ts (found, qs) = returns (found, record ts { tasks = qs })

  -- `run_next_task` up to its call of `run_task`: the task that it runs, if any, which its callers here
  -- run.
  unfoldable pub run_next_task :
      (ℕ → Bool) → ℕ → FixedTaskScheduler T → Outcome (Option T × FixedTaskScheduler T)
  run_next_task free id ts = sweep free (steal_order id (size ts)) ts.tasks >>= with_queues ts

  -- `on m` is what `started( )` answers before the attempt on queue `m`.
  unfoldable pub offer :
      (ℕ → Bool) → (ℕ → Bool) → T → List ℕ → List (ConcurrentQueue T) → Outcome (Offer T)
  offer on free tsk [] qs = returns refused
  offer on free tsk (m ∷ ms) qs =
      let rest = offer on free tsk ms qs in
      if on m
      then (do
        q ← deref (get_elem? qs m)
        if free m then returns (placed (modify qs m (λ _. (try_push_back true tsk q).1))) else rest)
      else returns halted

  -- `push_back( m_tasks[id], … )`, its rounds being those of the spinning loop.
  abbrev pub last_resort :
      FixedTaskScheduler T
      → ℕ
      → Spin (PushBackResult × ConcurrentQueue T)
      → Spin (Bool × FixedTaskScheduler T)
  last_resort ts id (stopped (success, q)) =
      stopped (true, record ts { tasks = modify ts.tasks id (λ _. q) })
  last_resort ts id (stopped (failed, q)) =
      stopped (false, record ts { tasks = modify ts.tasks id (λ _. q) })
  last_resort ts id spinning = spinning

  abbrev pub after_offer :
      FixedTaskScheduler T
      → ℕ
      → Spin (PushBackResult × ConcurrentQueue T)
      → Offer T
      → Spin (Bool × FixedTaskScheduler T)
  after_offer ts id last (placed qs) = stopped (true, record ts { tasks = qs })
  after_offer ts id last halted = stopped (true, ts)
  after_offer ts id last refused = last_resort ts id last

  -- The loop over the other queues, which never ends where the ring does not come back to `id`.
  abbrev pub around :
      Option (List ℕ)
      → (List ℕ → Outcome (Spin (Bool × FixedTaskScheduler T)))
      → Outcome (Spin (Bool × FixedTaskScheduler T))
  around none f = returns spinning
  around (some ms) f = f ms

  -- The attempt on the own queue, and then the loop.
  abbrev pub send_to :
      (ℕ → Bool)
      → (ℕ → Bool)
      → Bool
      → List (Round T)
      → T
      → ℕ
      → FixedTaskScheduler T
      → ConcurrentQueue T
      → Outcome (Spin (Bool × FixedTaskScheduler T))
  send_to on free acquired rounds tsk id ts q =
      if free id
      then returns (
          stopped
            (true, record ts { tasks = modify ts.tasks id (λ _. (try_push_back true tsk q).1) }))
      else around (ring ts.num_threads ts.num_threads id ((id + 1) % ts.num_threads)) (λ ms.
        offer on free tsk ms ts.tasks >>= λ o.
        returns (after_offer ts id (spin_push_back tsk acquired rounds q) o))

  unfoldable pub send_task :
      (ℕ → Bool)
      → (ℕ → Bool)
      → Bool
      → List (Round T)
      → T
      → ℕ
      → FixedTaskScheduler T
      → Outcome (Spin (Bool × FixedTaskScheduler T))
  send_task on free acquired rounds tsk id ts =
      if not (started ts)
      then returns (stopped (true, ts))
      else deref (get_elem? ts.tasks id) >>= send_to on free acquired rounds tsk id ts

  -- The spinning pop on the own queue.
  abbrev pub own_result :
      ℕ
      → FixedTaskScheduler T
      → Spin (Option T × ConcurrentQueue T)
      → Spin (Option T × FixedTaskScheduler T)
  own_result id ts (stopped (found, q)) =
      stopped (found, record ts { tasks = modify ts.tasks id (λ _. q) })
  own_result id ts spinning = spinning

  abbrev pub found_or_own :
      Bool
      → List (Round T)
      → ℕ
      → FixedTaskScheduler T
      → Option T
      → Outcome (Spin (Option T × FixedTaskScheduler T))
  found_or_own acquired rounds id ts (some t) = returns (stopped (some t, ts))
  found_or_own acquired rounds id ts none = do
    q ← deref (get_elem? ts.tasks id)
    returns (own_result id ts (spin_pop_front acquired rounds q))

  -- `wait_for_task_from_pool( id )`: the sweep, then the spinning pop on the own queue while the
  -- scheduler is started. none is an empty task.
  unfoldable pub wait_for_task_from_pool :
      (ℕ → Bool)
      → Bool
      → List (Round T)
      → ℕ
      → FixedTaskScheduler T
      → Outcome (Spin (Option T × FixedTaskScheduler T))
  wait_for_task_from_pool free acquired rounds id ts =
      if not (started ts) then returns (stopped (none, ts)) else (do
        (found, qs) ←
            sweep free (if ltb id (size ts) then steal_order id (size ts) else count_up 0 id)
              ts.tasks
        found_or_own acquired rounds id (record ts { tasks = qs }) found)

  -- A new worker thread for queue `n`.
  unfoldable pub add_queue : ℕ → Bool → FixedTaskScheduler T → FixedTaskScheduler T
  add_queue n handle ts = record ts {
    threads = ts.threads ++ record { id = n; handle = handle } ∷ [];
  }

  -- `add_queue( n, DAW_MOVE( hnd ) )` in a loop: the handle is moved from after the first round.
  unfoldable pub start_loop : ℕ → ℕ → Bool → FixedTaskScheduler T → FixedTaskScheduler T
  start_loop n zero handle ts = ts
  start_loop n (suc more) handle ts = start_loop (n + 1) more false (add_queue n handle ts)

  unfoldable pub start : Bool → FixedTaskScheduler T → FixedTaskScheduler T
  start handle ts =
      if started ts then ts else start_loop 0 ts.num_threads handle (record ts { continue = true })

  -- The threads are waited for or detached, and forgotten.
  unfoldable pub stop : FixedTaskScheduler T → FixedTaskScheduler T
  stop ts = record ts { continue = false; threads = [] }

  -- What `wait_for_scope` does before it calls its function.
  unfoldable pub wait_for_scope : Bool → FixedTaskScheduler T → FixedTaskScheduler T
  wait_for_scope handle ts =
      if has_empty_queue ts
      then ts
      else add_queue ts.num_threads handle (record ts { num_threads = ts.num_threads + 1 })
