-- ===== src/Tests/Algorithms.antt =====
-- The algorithms at concrete ranges, in two parts, the second of which runs first.
use function_stream.Base.{
  ℕ, ◌+◌, ◌*◌, ◌≡◌, refl, Bool, List, [], ◌∷◌, ◌++◌, length, map, replicate, ltb, ◌==◌,
  if◌then◌else◌, returns, throws, faults, some, false, arith,
}
use function_stream.Parallel.{accumulate, zip_with}
use function_stream.Parallel.Parts.{located}
use function_stream.Parallel.Reduce.{parallel_reduce, parallel_reduce-accumulate}
use function_stream.Parallel.MapReduce.{parallel_map_reduce, parallel_map_reduce-accumulate}
use function_stream.Parallel.MinMax.{
  IsStrictWeak, parallel_min_element, min_element, parallel_min_element-min_element,
}
use function_stream.Parallel.Equal.{equal, parallel_equal, parallel_equal-equal}
use function_stream.Parallel.FindIf.{find_if, parallel_find_if, parallel_find_if-find_if}
use function_stream.Parallel.Scan.{partial_sum, parallel_scan}
use function_stream.Parallel.Scan.Result.{parallel_scan-partial_sum}
use mathlib.Core.List.{reverse}
use function_stream.Latch.{fixed_cnt_sem, add_notifier, can_pass}
use function_stream.Group.{Group, Reach, here, next, schedule}
use function_stream.Parallel.{View, split_range, views}
use function_stream.Parallel.Sort.{parallel_sort, parallel_sort_outcome}
use function_stream.Parallel.Chunked.{
  partition_range, index_task, chunked_for_each, parallel_for_each_index, chunked_for_each-hangs,
}
use function_stream.Tests.{in_two, in_reverse}

abbrev items : List ℕ
items = 3 ∷ 1 ∷ 4 ∷ 1 ∷ 5 ∷ []

abbrev is_one : ℕ → Bool
is_one n = n == 1

abbrev twice : ℕ → ℕ
twice n = 2 * n

ltb-IsStrictWeak : IsStrictWeak ltb
ltb-IsStrictWeak = record {
  less_trans = λ a b c p q. ground arith;
  not_less_trans = λ a b c p q. ground arith;
}

-- The parts are `3 ∷ []` and `1 ∷ 4 ∷ 1 ∷ 5 ∷ []`.
parallel_reduce_test : parallel_reduce in_two in_reverse items 10 ◌+◌ ≡ returns 24
unfolding parallel_reduce function_stream.Parallel.split_range function_stream.Parallel.views
    function_stream.Parallel.partition_range_pos function_stream.Parallel.pos_task
    function_stream.Parallel.count_up function_stream.Parallel.Reduce.reduce_part
    function_stream.Parallel.Reduce.reduce_results accumulate
parallel_reduce_test = refl

parallel_reduce-accumulate_example :
    parallel_reduce in_two in_reverse items 10 ◌+◌ ≡ returns (accumulate ◌+◌ 10 items)
parallel_reduce-accumulate_example =
    parallel_reduce-accumulate ◌+◌ (λ a b c. omega arith) in_two in_reverse items 10

parallel_scan-partial_sum_example :
    parallel_scan ◌+◌ in_two in_reverse items (replicate 5 0) ≡ returns (partial_sum ◌+◌ items)
parallel_scan-partial_sum_example =
    parallel_scan-partial_sum ◌+◌ (λ a b c. omega arith) (λ a b. omega arith) in_reverse in_two
      items (replicate 5 0) refl (λ e. omega (arith, e))

parallel_map_reduce-accumulate_example :
    parallel_map_reduce twice ◌+◌ in_two in_reverse items 10 ≡ (
      if ltb (length items) 2
      then throws
      else returns (accumulate ◌+◌ (twice 10) (map twice items)))
parallel_map_reduce-accumulate_example =
    parallel_map_reduce-accumulate twice ◌+◌ (λ a b c. omega arith) in_two in_reverse items 10

parallel_min_element-min_element_example :
    parallel_min_element in_two in_reverse items ltb ≡ returns (min_element items ltb)
parallel_min_element-min_element_example =
    parallel_min_element-min_element ltb ltb-IsStrictWeak in_two in_reverse items

parallel_equal-equal_example :
    parallel_equal ◌==◌ in_two in_reverse items items ≡ returns (equal ◌==◌ items items)
parallel_equal-equal_example = parallel_equal-equal ◌==◌ in_two in_reverse items items

parallel_find_if-find_if_example :
    parallel_find_if is_one in_two in_reverse items ≡ find_if is_one (located 0 items)
parallel_find_if-find_if_example = parallel_find_if-find_if is_one in_two in_reverse items

parallel_sort_outcome_example :
    parallel_sort in_two in_reverse reverse ◌++◌ items
    ≡ some (
        if ltb (length (in_two.partition_range ℕ 1 items in_reverse.size)) 2
        then returns (reverse items)
        else faults)
parallel_sort_outcome_example = parallel_sort_outcome in_two in_reverse reverse ◌++◌ items

abbrev sum_view : View ℕ → ℕ → ℕ
sum_view v s = s + length v.items

-- One of the two tasks of each call is scheduled.
abbrev first_part : View ℕ
first_part = record { first = 0; items = 3 ∷ [] }

abbrev second_part : View ℕ
second_part = record { first = 1; items = 1 ∷ 4 ∷ 1 ∷ 5 ∷ [] }

abbrev one_scheduled : Group (View ℕ) ℕ
one_scheduled = record {
  todo = second_part ∷ [];
  queued = first_part ∷ [];
  finished = [];
  sem = fixed_cnt_sem 3;
  scoped = false;
  memory = 0;
}

to_chunked : Reach sum_view (chunked_for_each in_two in_reverse items 0) one_scheduled
unfolding chunked_for_each partition_range split_range views add_notifier
to_chunked = next here (schedule first_part (second_part ∷ []) refl refl)

to_indexed :
    Reach (index_task ◌+◌) (parallel_for_each_index in_two in_reverse items 0) one_scheduled
unfolding parallel_for_each_index partition_range split_range views add_notifier
to_indexed = next here (schedule first_part (second_part ∷ []) refl refl)

chunked_for_each-hangs_example :
    (can_pass one_scheduled.sem ≡ (length items == 0))
    × (can_pass one_scheduled.sem ≡ (length items == 0))
chunked_for_each-hangs_example =
    chunked_for_each-hangs in_two in_reverse items 0 sum_view ◌+◌ to_chunked to_indexed
