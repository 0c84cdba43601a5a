-- ===== src/Parallel/Interleaved.antt =====
-- The tasks of `parallel_reduce` of include/daw/fs/impl/algorithms_impl.h as a group of
-- include/daw/fs/task_scheduler.h: one thread schedules them while the workers run them.
use mathlib.Core.List.Permᴰ
use function_stream.Base.{
  ℕ, ◌-◌, ◌<◌, ◌≡◌, ap, ◌∙◌, arith, modify, true, List, length, map, replicate, Option, none,
  returns,
}
use function_stream.Latch.{can_pass}
use function_stream.Group.{Group, scoped_group, Reach}
use function_stream.Group.Refinement.{Reach-partition_range_pos}
use function_stream.Parallel.{
  View, DawAlgorithm, TaskScheduler, accumulate, split_range, pos_task, count_up,
}
use function_stream.Parallel.Collect.{collect, slot_task_comm}
use function_stream.Parallel.Parts.{map-split_range}
use function_stream.Parallel.Reduce.{reduce_part, reduce_results, reduce_results-parts}

-- The group of the tasks for all views, from the first on.
abbrev pub group_of : {A S : Type 0} → List (View A) → S → Group ℕ S
group_of ranges s = scoped_group (count_up 0 (length ranges - 0)) s

-- A task for each view, which puts what `g` makes of the view and of slot `n` in slot `n`.
abbrev pub slot_body : {A R : Type 0} → List (View A) → (View A → R → R) → ℕ → List R → List R
slot_body ranges g = pos_task ranges (λ rng n results. modify results n (g rng))

-- One of the schedulers with so many workers.
abbrev any_scheduler : (n : ℕ) → 0 < n → TaskScheduler
any_scheduler n h = record {
  size = n;
  size_pos = h;
  order = λ T tasks. tasks;
  order-perm = λ T tasks. Permᴰ.refl tasks;
}

-- Whatever steps the threads took, a waiter that passes finds in each slot what its task made of it.
pub slots_found :
    {A R : Type 0} (ranges : List (View A)) (g : View A → R → R) (x : R) {h : Group ℕ (List R)}
    → Reach (slot_body ranges g) (group_of ranges (replicate (length ranges) x)) h
    → can_pass h.sem ≡ true
    → h.memory ≡ map (λ rng. g rng x) ranges
slots_found ranges g x r p =
    let one : TaskScheduler = any_scheduler 1 (omega arith) in
    Reach-partition_range_pos ranges (λ rng n results. modify results n (g rng)) 0 one
      (slot_task_comm ranges g) r p
    ∙ collect ranges g one x

module _ (daw : DawAlgorithm) {A : Type 0} (max_parts : ℕ) (op : A → A → A) (range : List A) where
  abbrev pub reduce_ranges : List (View A)
  reduce_ranges = split_range daw 1 range max_parts

  -- What the task for a view does in `parallel_reduce`.
  unfoldable pub reduce_task : ℕ → List (Option A) → List (Option A)
  reduce_task = slot_body reduce_ranges (λ rng _. reduce_part op rng.items)

  -- The group of `parallel_reduce`, for a range of two items or more.
  unfoldable pub reduce_group : Group ℕ (List (Option A))
  reduce_group = group_of reduce_ranges (replicate (length reduce_ranges) none)

-- Whatever steps the scheduling thread and the workers took, in any interleaving, since
-- `parallel_reduce` began to schedule its tasks: when its wait passes, combining the results that it
-- finds gives the sequential fold over the range, for an associative operation.
pub reduce_group-accumulate :
    (daw : DawAlgorithm) {A : Type 0} (max_parts : ℕ) (op : A → A → A) (range : List A) (init : A)
    {h : Group ℕ (List (Option A))}
    → 0 < max_parts
    → ((a b c : A) → op (op a b) c ≡ op a (op b c))
    → Reach (reduce_task daw max_parts op range) (reduce_group daw max_parts op range) h
    → can_pass h.sem ≡ true
    → reduce_results op init h.memory ≡ returns (accumulate op init range)
unfolding reduce_task reduce_group
reduce_group-accumulate daw {A} max_parts op range init m assoc r p =
    ap (reduce_results op init) (
      slots_found (split_range daw 1 range max_parts) (λ rng _. reduce_part op rng.items) none r p
      ∙ map-split_range daw 1 range max_parts (reduce_part op))
    ∙ reduce_results-parts op assoc init _ (daw.partition_nonempty A 1 range max_parts)
    ∙ ap (λ l. returns (accumulate op init l)) (daw.partition_all A 1 range max_parts m)
