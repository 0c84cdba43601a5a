-- ===== src/Task/Unique.antt =====
-- include/daw/fs/impl/task.h: `unique_task_t`, which owns a task and leaves an empty one behind when it
-- is moved from, and the task made with a `unique_cnt_sem`.
use function_stream.Base.{
  ◌≡◌, refl, Bool, true, false, if◌then◌else◌, Outcome, returns, faults, arith, some, none,
}
use function_stream.Latch.{FixedCntSem, add_notifier, notify, try_wait}
use function_stream.Latch.Shared.{UniqueCntSem, share}
use function_stream.Task.{FixedTask, empty_task, task_with, run_task, executed, resent}

-- `fixed_task_t( func, unique_cnt_sem )`: an empty function is replaced by one that does nothing. A
-- handle without a semaphore fails the assertion.
unfoldable pub task_with_unique : UniqueCntSem → Outcome FixedTask
task_with_unique l = elim (share l).0 [
  | none ↦ faults
  | some s ↦ returns (record { has_function = true; sem = add_notifier s })
]

-- The pointer of a `unique_task_t` is never empty.
abbrev pub UniqueTask : Type 0
UniqueTask = FixedTask

-- `unique_task_t( unique_task_t && )`: the new task, and what is left of the other.
unfoldable pub move_task : UniqueTask → UniqueTask × UniqueTask
move_task other = (other, empty_task)

-- `operator=( unique_task_t && )` on two different tasks, or on one, and what is left of the other.
unfoldable pub assign_task : Bool → UniqueTask → UniqueTask → UniqueTask × UniqueTask
assign_task same self rhs = if same then (self, rhs) else (rhs, empty_task)

-- A task that was moved, by construction or by assignment, is executed as it was before, once: what is
-- left of it is put back into a queue by a started scheduler, and never executed.
pub move_task-run_task :
    (sem : FixedCntSem) (self : UniqueTask)
    → let t : UniqueTask = task_with true sem in
      (run_task true (move_task t).0 ≡ returns (executed sem))
      × (run_task true (move_task t).1 ≡ returns resent)
      × (run_task true (assign_task false self t).0 ≡ returns (executed sem))
      × (run_task true (assign_task false self t).1 ≡ returns resent)
unfolding move_task assign_task run_task task_with add_notifier notify try_wait
move_task-run_task sem self = (ground arith, refl, ground arith, refl)
