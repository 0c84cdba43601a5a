-- ===== src/Tests/Groups.antt =====
-- Two tasks that add to a number, run in the order that is not the one they were scheduled in.
use function_stream.Base.{
  ℕ, ◌+◌, ◌≡◌, refl, true, false, List, [], ◌∷◌, Option, some, arith, returns,
}
use function_stream.Latch.{FixedCntSem, fixed_cnt_sem, notify, add_notifier, can_pass, try_wait}
use function_stream.Latch.Counting.{notify_times}
use function_stream.Group.{
  Group, scoped_group, preset_group, Step, schedule, leave, execute, Reach, here, next,
}
use function_stream.Parallel.{pos_task, count_up}
use function_stream.Parallel.{accumulate, split_range, views}
use function_stream.Parallel.Reduce.{reduce_part, reduce_results}
use function_stream.Parallel.Interleaved.{reduce_task, reduce_group, reduce_group-accumulate}
use function_stream.Tests.{in_two}

abbrev add : ℕ → ℕ → ℕ
add t m = m + t

abbrev tasks : List ℕ
tasks = 5 ∷ 7 ∷ []

abbrev start : Group ℕ ℕ
start = scoped_group tasks 0

abbrev first_scheduled : Group ℕ ℕ
first_scheduled = record {
  todo = 7 ∷ [];
  queued = 5 ∷ [];
  finished = [];
  sem = fixed_cnt_sem 2;
  scoped = true;
  memory = 0;
}

abbrev done : Group ℕ ℕ
done = record {
  todo = [];
  queued = [];
  finished = 7 ∷ 5 ∷ [];
  sem = fixed_cnt_sem 0;
  scoped = false;
  memory = 12;
}

first_step : Step add start first_scheduled
unfolding add_notifier
first_step = schedule 5 (7 ∷ []) refl refl

to_done : Reach add start done
unfolding add_notifier notify function_stream.Latch.decrement
to_done =
    next
      (next
        (next (next (next here first_step) (schedule 7 [] refl refl))
          (execute (5 ∷ []) [] 7 (fixed_cnt_sem 2) refl refl refl))
        (leave (fixed_cnt_sem 1) refl refl refl refl))
      (execute [] [] 5 (fixed_cnt_sem 0) refl refl refl)

abbrev preset_done : Group ℕ ℕ
preset_done = record {
  todo = [];
  queued = [];
  finished = 5 ∷ 7 ∷ [];
  sem = fixed_cnt_sem 2;
  scoped = false;
  memory = 12;
}

to_preset_done : Reach add (preset_group tasks 0) preset_done
unfolding add_notifier notify function_stream.Latch.decrement
to_preset_done =
    next
      (next (next (next here (schedule 5 (7 ∷ []) refl refl)) (schedule 7 [] refl refl))
        (execute [] (7 ∷ []) 5 (fixed_cnt_sem 3) refl refl refl))
      (execute [] [] 7 (fixed_cnt_sem 2) refl refl refl)

done_passes : can_pass done.sem ≡ true
unfolding can_pass
done_passes = refl

abbrev two : ℕ
two = 2

two_of_two : notify_times 2 (fixed_cnt_sem 2) ≡ returns (fixed_cnt_sem 0)
unfolding notify_times notify function_stream.Latch.decrement
two_of_two = refl

abbrev five_items : List ℕ
five_items = 3 ∷ 1 ∷ 4 ∷ 1 ∷ 5 ∷ []

-- The worker has run the first task before the second was scheduled.
abbrev reduced : Group ℕ (List (Option ℕ))
reduced = record {
  todo = [];
  queued = [];
  finished = 0 ∷ 1 ∷ [];
  sem = fixed_cnt_sem 0;
  scoped = false;
  memory = some 3 ∷ some 11 ∷ [];
}

to_reduced :
    Reach (reduce_task in_two 2 ◌+◌ five_items) (reduce_group in_two 2 ◌+◌ five_items) reduced
unfolding add_notifier notify function_stream.Latch.decrement count_up pos_task reduce_task
    reduce_group split_range views reduce_part accumulate
to_reduced =
    next
      (next
        (next
          (next (next here (schedule 0 (1 ∷ []) refl refl))
            (execute [] [] 0 (fixed_cnt_sem 1) refl refl refl))
          (schedule 1 [] refl refl))
        (leave (fixed_cnt_sem 1) refl refl refl refl))
      (execute [] [] 1 (fixed_cnt_sem 0) refl refl refl)

reduce_group-accumulate_example :
    reduce_results ◌+◌ 10 reduced.memory ≡ returns (accumulate ◌+◌ 10 five_items)
reduce_group-accumulate_example =
    reduce_group-accumulate in_two 2 ◌+◌ five_items 10 (omega arith) (λ a b c. omega arith)
      to_reduced done_passes
