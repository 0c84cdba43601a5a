-- ===== src/Task.antt =====
-- include/daw/fs/impl/task.h, and `run_task` and the temporary `task_runner` of
-- src/task_scheduler.cpp. A task is seen by the count of its semaphore.
pub mod Unique
use function_stream.Base.{
  ℕ, ◌+◌, ◌≤◌, ◌≡◌, refl, Bool, true, false, not, List, [], ◌∷◌, if◌then◌else◌, Outcome, returns,
  ◌>>=◌, arith,
}
use function_stream.Latch.{FixedCntSem, fixed_cnt_sem, add_notifier, notify, try_wait}

-- `fixed_task_t`: whether it has a function, and its semaphore, which others may share.
pub record FixedTask : Type 0 where
  pub has_function : Bool
  pub sem : FixedCntSem

abbrev pub empty_task : FixedTask
empty_task = record { has_function = false; sem = fixed_cnt_sem 0 }

unfoldable pub task_of : FixedTask
task_of = record { has_function = true; sem = fixed_cnt_sem 1 }

-- `fixed_task_t( func, shared_cnt_sem )`, which adds a notifier for a function that is not empty.
unfoldable pub task_with : Bool → FixedCntSem → FixedTask
task_with has_function sem = record {
  has_function = has_function;
  sem = if has_function then add_notifier sem else sem;
}

-- `execute`: the function, and the notification at the end of the scope, also if it throws. Calling
-- an empty function throws.
unfoldable pub execute : FixedTask → Outcome FixedCntSem
execute t = notify t.sem

-- What `run_task` does with a task.
pub data Ran : Type 0 where
  dropped resent : Ran
  executed : FixedCntSem → Ran

unfoldable pub run_task : Bool → FixedTask → Outcome Ran
unfolding execute
run_task started t =
    if not started
    then returns dropped
    else if try_wait t.sem
    then returns resent
    else (do s ← execute t; returns (executed s))

-- A started scheduler executes a task that was made from a function, with a semaphore of its own or
-- with any that it is given, and leaves a given semaphore as it was before the task was made.
pub run_task-executes :
    (sem : FixedCntSem)
    → (run_task true (task_with true sem) ≡ returns (executed sem))
      × (run_task true task_of ≡ returns (executed (fixed_cnt_sem 0)))
unfolding run_task task_with task_of add_notifier notify try_wait
run_task-executes sem = (ground arith, refl)

-- A task whose semaphore is open, such as the empty one, is put back into a queue whenever a started
-- scheduler runs it, and so is never done; a stopped scheduler drops every task.
pub run_task-resends :
    (started : Bool) (t : FixedTask)
    → t.sem.value ≡ 0
    → run_task started t ≡ returns (if started then resent else dropped)
unfolding run_task try_wait
run_task-resends started t h = ground arith

-- What the loop of the temporary `task_runner` sees of its semaphore in one round: at the head of the
-- loop, and at the test before it takes a task.
pub record Look : Type 0 where
  pub at_head : Bool
  pub at_test : Bool

-- The tasks that the temporary `task_runner` takes: `while( not sem.try_wait( ) )`, and it returns
-- `if( … or not sem.try_wait( ) )`.
unfoldable pub temp_task_runner : Bool → List Look → ℕ
temp_task_runner started [] = 0
temp_task_runner started (l ∷ ls) =
    let more = temp_task_runner started ls in
    if l.at_head then 0 else if not started then 0 else if not l.at_test then 0 else more + 1

-- A semaphore that was seen open stays open.
abbrev pub StaysOpen : Bool → List Look → Type 0
StaysOpen seen [] = Unit
StaysOpen seen (l ∷ ls) =
    (seen ≡ true → l.at_head ≡ true)
    × (l.at_head ≡ true → l.at_test ≡ true)
    × StaysOpen l.at_test ls

-- A temporary runner takes at most one task before it returns, since a semaphore that it has seen
-- open stays open.
pub temp_task_runner-idle :
    (started : Bool) (ls : List Look) → StaysOpen false ls → (temp_task_runner started ls ≤ 1)
unfolding temp_task_runner
temp_task_runner-idle started [] h = omega arith
temp_task_runner-idle started (l ∷ []) h = ground arith
temp_task_runner-idle started (l ∷ m ∷ ls) h = ground (arith, h.2.0)
