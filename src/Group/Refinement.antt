-- ===== src/Group/Refinement.antt =====
-- The groups of `partition_range_pos` against what the algorithms take it to do.
use function_stream.Base.{ℕ, ◌-◌, ◌≡◌, ◌∙◌, sym, true, List, length, run-perm}
use function_stream.Latch.{can_pass}
use function_stream.Group.{Group, scoped_group, Reach}
use function_stream.Group.Order.{wait_finds_sequential}
use function_stream.Parallel.{View, TaskScheduler, pos_task, count_up, partition_range_pos}

-- If the tasks of a group commute, then after any interleaving of its steps in which a waiter passes,
-- memory is what `partition_range_pos` of the algorithms leaves, with any scheduler.
pub Reach-partition_range_pos :
    {A S : Type 0} (ranges : List (View A)) (func : View A → ℕ → S → S) (start_pos : ℕ)
    (ts : TaskScheduler) {s : S} {g : Group ℕ S}
    → ((n m : ℕ) (t : S)
        → pos_task ranges func m (pos_task ranges func n t)
          ≡ pos_task ranges func n (pos_task ranges func m t))
    → Reach
        (pos_task ranges func)
        (scoped_group (count_up start_pos (length ranges - start_pos)) s)
        g
    → can_pass g.sem ≡ true
    → g.memory ≡ partition_range_pos ts ranges func start_pos s
unfolding partition_range_pos
Reach-partition_range_pos ranges func start_pos ts {s} c r p =
    wait_finds_sequential (pos_task ranges func) c r p
    ∙ sym (run-perm (pos_task ranges func) c (ts.order-perm ℕ _) s)
