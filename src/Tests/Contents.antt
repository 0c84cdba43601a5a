-- ===== src/Tests/Contents.antt =====
-- A scheduler of two queues that is sent a task, and a worker that runs all of them.
use function_stream.Base.{
  ℕ, ◌+◌, ◌%◌, ◌≡◌, ◌<◌, refl, true, false, List, [], ◌∷◌, some, returns, arith,
}
use Prim.Native.Nat.{◌^◌}
use function_stream.Latch.{FixedCntSem, fixed_cnt_sem}
use function_stream.Queue.{ConcurrentQueue, stopped}
use function_stream.Scheduler.{
  FixedTaskScheduler, size, send_task, run_next_task, sweep, steal_order, stop,
}
use function_stream.Parallel.{count_up}
use function_stream.Scheduler.Sending.{Placed}
use function_stream.Scheduler.Contents.{contents}
use function_stream.Scheduler.Contents.Bag.{
  bag, put_all, Reach, here, sends, drops, runs_next, stops, Reach-bag,
}
use function_stream.Scheduler.Contents.Runs.{RunsAll, send_task-RunsAll}
use function_stream.Scheduler.Overloads.{WrappedTask, sent_task, add_task_with, add_task_with-runs}
use function_stream.Scheduler.Nested
use function_stream.Scheduler.Nested.{Pool, performs, awaits, wait_for_task, nested_wait_hangs}
use function_stream.Task.{run_task, executed}
use function_stream.Tests.Schedulers.{running, always}

-- Task 8 is put behind the tasks of the second queue, and then a worker of the first queue takes its
-- front task; a task that is sent after the scheduler was stopped is dropped.
abbrev sent : FixedTaskScheduler ℕ
sent = record running { tasks = record { items = 1 ∷ 2 ∷ [] } ∷ record { items = 3 ∷ 8 ∷ [] } ∷ [] }

abbrev taken : FixedTaskScheduler ℕ
taken = record running {
  continue = false;
  threads = [];
  tasks = record { items = 2 ∷ [] } ∷ record { items = 3 ∷ 8 ∷ [] } ∷ [];
}

taken_reached : Reach running (9 ∷ 8 ∷ []) (9 ∷ []) (1 ∷ []) taken
unfolding send_task function_stream.Queue.try_push_back run_next_task sweep steal_order
    function_stream.Queue.try_pop_front count_up stop
taken_reached =
    drops always always false [] 9 1
      (stops (
        runs_next always 0 (some 1)
          (sends always always false [] 8 1 true here refl (λ m. refl) tt refl) refl))
      refl

Reach-bag_example :
    put_all (9 ∷ 8 ∷ []) (bag running) ≡ put_all (9 ∷ []) (put_all (1 ∷ []) (bag taken))
Reach-bag_example = Reach-bag taken_reached

send_task-RunsAll_example :
    (t : FixedTaskScheduler ℕ) × (send_task always always false [] 8 1 running
      ≡ returns (stopped (true, t)))
    × RunsAll always (λ s. s) false 5 0 t (8 ∷ contents running.tasks)
send_task-RunsAll_example =
    send_task-RunsAll always (λ s. s) false always 8 running 1 0 5 false [] refl (λ m. refl)
      (λ m. refl) refl (omega arith) (omega arith) (omega arith)

abbrev idle : FixedTaskScheduler (WrappedTask ℕ)
idle = record {
  threads = [];
  num_threads = 2;
  tasks = record { items = [] } ∷ record { items = [] } ∷ [];
  task_count = 5;
  current_id = 0;
  continue = true;
  block_on_destruction = false;
}

abbrev given : FixedCntSem
given = fixed_cnt_sem 3

add_task_with-runs_example :
    (k : ℕ) × (qs : List (ConcurrentQueue (WrappedTask ℕ))) × Placed always always
      (sent_task (some 7) given idle)
      k
      idle.tasks
      qs
    × (add_task_with always always false [] (some idle) (some 7) given
        ≡ returns (
            stopped
              (true, record idle { tasks = qs; task_count = (idle.task_count + 1) % 2 ^ 64 })))
    × ((sent_task (some 7) given idle).id < size idle)
    × (run_task true (sent_task (some 7) given idle).task ≡ returns (executed given))
add_task_with-runs_example =
    add_task_with-runs always always (some 7) given idle 0 false [] refl (λ m. refl) refl
      (omega arith) refl

-- Two workers, one of which waits for a task that stands in the first queue, when the other waits for
-- it too; then a task is sent to the second queue.
abbrev one_waits : Pool
one_waits = record {
  scheduler = record running { tasks = record { items = 9 ∷ [] } ∷ record { items = [] } ∷ [] };
  workers = performs 7 ∷ awaits 6 9 ∷ [];
  ended = [];
}

abbrev both_wait : Pool
both_wait = record {
  scheduler = record running { tasks = record { items = 9 ∷ [] } ∷ record { items = 8 ∷ [] } ∷ [] };
  workers = awaits 7 9 ∷ awaits 6 9 ∷ [];
  ended = [];
}

both_wait_reached : Nested.Reach false (wait_for_task 0 7 9 one_waits) both_wait
unfolding wait_for_task function_stream.Scheduler.has_empty_queue
    function_stream.Scheduler.any_empty function_stream.Scheduler.wait_for_scope
    function_stream.Queue.empty send_task function_stream.Queue.try_push_back
both_wait_reached =
    Nested.next Nested.here (Nested.sends always always false [] 8 1 true _ refl refl)

one_waits-empty : function_stream.Scheduler.has_empty_queue one_waits.scheduler ≡ true
unfolding function_stream.Scheduler.has_empty_queue function_stream.Scheduler.any_empty
    function_stream.Queue.empty
one_waits-empty = refl

nested_wait_hangs_example :
    (both_wait.workers ≡ awaits 7 9 ∷ awaits 6 9 ∷ []) × (both_wait.ended ≡ one_waits.ended)
nested_wait_hangs_example =
    nested_wait_hangs 0 7 9 one_waits (refl, (refl, tt)) one_waits-empty both_wait_reached
