-- ===== src/Tests/Schedulers.antt =====
-- A scheduler of two queues, the first of which is locked, and a queue that two threads use.
use function_stream.Base.{
  ℕ, ◌+◌, ◌≤◌, ◌<◌, ◌≡◌, ◌⊎◌, refl, Bool, true, false, List, [], ◌∷◌, none, some, modify, returns,
  faults, arith, ◌==◌,
}
use function_stream.Queue.{ConcurrentQueue, Round, Spin, stopped, spin_push_back}
use function_stream.Queue.Fifo.{
  Call, tries_push, pushes, tries_pop, pops, IsFifo, history, history-IsFifo,
}
use function_stream.Scheduler.{
  FixedTaskScheduler, size, started, ring, send_task, run_next_task, get_task_id, wait_for_scope,
  has_empty_queue, start,
}
use function_stream.Scheduler.Sending.{Placed, send_task-places}
use function_stream.Scheduler.Stealing.{Gives, run_next_task-finds}
use function_stream.Scheduler.Growth.{draw_ids, wait_for_scope_overruns}

abbrev calls : List (Call ℕ)
calls = pushes 4 ∷ tries_push false 5 ∷ tries_push true 6 ∷ tries_pop true ∷ pops ∷ []

history-IsFifo_example :
    IsFifo (history (record { pushed = []; popped = []; queue = record { items = [] } }) calls)
history-IsFifo_example = history-IsFifo calls

abbrev pub running : FixedTaskScheduler ℕ
running = record {
  threads = record { id = 0; handle = true } ∷ record { id = 1; handle = false } ∷ [];
  num_threads = 2;
  tasks = record { items = 1 ∷ 2 ∷ [] } ∷ record { items = 3 ∷ [] } ∷ [];
  task_count = 5;
  current_id = 0;
  continue = true;
  block_on_destruction = false;
}

abbrev pub always : ℕ → Bool
always n = true

abbrev second_free : ℕ → Bool
second_free n = n == 1

send_task-places_example :
    (k : ℕ) × (qs : List (ConcurrentQueue ℕ)) × Placed always second_free 8 k running.tasks qs
    × (send_task always second_free false [] 8 0 running
        ≡ returns (stopped (true, record running { tasks = qs })))
send_task-places_example =
    send_task-places always second_free 8 running 0 1 false [] refl (λ m. refl) refl (omega arith)
      (omega arith) refl

run_next_task-finds_example :
    ((n : ℕ) × (t : ℕ) × (rest : List ℕ) × Gives second_free running.tasks n t rest
      × (run_next_task second_free 0 running
          ≡ returns (
            some t,
            record running { tasks = modify running.tasks n (λ _. record { items = rest }) },
          )))
    ⊎ (¬ (
          (n : ℕ) × (t : ℕ) × (rest : List ℕ) × (n < size running)
          × Gives second_free running.tasks n t rest)
        × (run_next_task second_free 0 running ≡ returns (none, running)))
run_next_task-finds_example = run_next_task-finds second_free 0 running (omega arith)

all_full : has_empty_queue running ≡ false
unfolding has_empty_queue function_stream.Scheduler.any_empty function_stream.Queue.empty
all_full = refl

wait_for_scope_overruns_example :
    (k : ℕ) × (drawn after : FixedTaskScheduler ℕ) × (k ≤ size running)
    × ((wait_for_scope true running).num_threads ≡ size running + 1)
    × (draw_ids k (wait_for_scope true running) ≡ returns drawn)
    × (get_task_id drawn ≡ returns (size running, after))
    × (after.tasks ≡ running.tasks)
    × (send_task always always false [] 8 (size running) running ≡ faults)
wait_for_scope_overruns_example =
    wait_for_scope_overruns true running running always always false [] 8 refl all_full
      (omega arith) refl refl

abbrev fresh : FixedTaskScheduler ℕ
fresh = record {
  threads = [];
  num_threads = 2;
  tasks = record { items = [] } ∷ record { items = [] } ∷ [];
  task_count = 0;
  current_id = 0;
  continue = false;
  block_on_destruction = false;
}
