-- ===== src/Tests/Runners.antt =====
-- What keeps a scheduler alive, a task that goes on with others, and a temporary runner too many, for
-- the scheduler of Tests/Schedulers.
use function_stream.Base.{
  ℕ, ◌+◌, ◌<◌, ◌≤◌, ◌≡◌, refl, true, false, List, [], ◌∷◌, length, returns, faults, ◌>>=◌, arith,
}
use function_stream.Latch.{fixed_cnt_sem, can_pass}
use function_stream.Queue.{stopped}
use function_stream.Scheduler.{FixedTaskScheduler}
use function_stream.Scheduler.Ownership.{
  Owners, make_shared_ts, lock, drop_handle, Reach, here, next, locks, drops, worker_keeps_alive,
}
use function_stream.Scheduler.Wrapped.{task_wrapper, count_tasks, IsDry, task_wrapper-drains}
use function_stream.Scheduler.Runner.{task_runner, Emptied, task_runner-empties}
use function_stream.Scheduler.Calls.{wait_for_task_until}
use function_stream.Scheduler.Temporary.{
  TempTaskRunner, start_temp_task_runner, close_temp_task_runner, start_runners,
  temp_task_runner-overruns,
}
use function_stream.Tests.Schedulers.{running, always}

abbrev locked : Owners
locked = record { users = 1; waiting = 0; holding = 1; continue = true; destroyed = false }

abbrev abandoned : Owners
abandoned = record { users = 0; waiting = 0; holding = 1; continue = true; destroyed = false }

to_locked : Reach make_shared_ts locked
unfolding lock
to_locked = next here (locks refl)

to_abandoned : Reach locked abandoned
unfolding drop_handle
to_abandoned = next here (drops refl)

worker_keeps_alive_example : (0 < abandoned.holding) × (abandoned.destroyed ≡ false)
worker_keeps_alive_example = worker_keeps_alive to_locked (omega arith) to_abandoned refl

abbrev leaves : ℕ → FixedTaskScheduler ℕ → FixedTaskScheduler ℕ
leaves t s = s

abbrev leaves_all : FixedTaskScheduler ℕ → FixedTaskScheduler ℕ
leaves_all s = s

task_wrapper-drains_example :
    (task_wrapper always leaves false 7 9 0 running ≡ returns (stopped ([], running)))
    × ((ts : List ℕ) × (s : FixedTaskScheduler ℕ) × (task_wrapper always leaves true 7 9 0 running
          ≡ returns (stopped (7 ∷ ts, s)))
        × (length ts + count_tasks s.tasks ≤ count_tasks running.tasks)
        × IsDry always leaves s)
task_wrapper-drains_example =
    task_wrapper-drains always leaves 7 9 0 running (λ t s. (omega arith, refl, refl)) refl
      (omega arith) (omega arith)

temp_task_runner-overruns_example :
    (r : TempTaskRunner) × (ts : FixedTaskScheduler ℕ) × ((start_runners 2 running
        >>= start_temp_task_runner)
      ≡ returns (r, ts))
    × (can_pass r.sem ≡ false)
    × (close_temp_task_runner r ≡ returns (fixed_cnt_sem 0))
    × (wait_for_task_until always always false [] r.id ts ≡ faults)
temp_task_runner-overruns_example =
    temp_task_runner-overruns always always false [] 2 running refl (omega arith) (omega arith)

task_runner-empties_example :
    Emptied always leaves leaves_all false running
      (task_runner always leaves leaves_all false [] 9 1 running)
task_runner-empties_example =
    task_runner-empties always leaves leaves_all false 9 1 running (λ n. refl)
      (λ t s. (omega arith, refl, refl)) (omega arith) (omega arith) refl
