-- ===== src/Algorithms.antt =====
-- include/daw/fs/algorithms.h: the functions that users call, over those of
-- include/daw/fs/impl/algorithms_impl.h. A pair of iterators is the list between them; the static
-- assertions on types have no counterpart.
pub mod Composed
use function_stream.Base.{ℕ, ◌+◌, Bool, List, [], ◌∷◌, Option, Outcome, faults}
use function_stream.Parallel.{View, DawAlgorithm, TaskScheduler, split_range, partition_range_pos}
use function_stream.Parallel.Reduce.{parallel_reduce}
use function_stream.Parallel.MinMax.{Iterator, parallel_min_element, parallel_max_element}
use function_stream.Parallel.Transform.{parallel_map, parallel_map_in_place}
use function_stream.Parallel.Binary.{parallel_map_binary}
use function_stream.Parallel.MapReduce.{parallel_map_reduce}
use function_stream.Parallel.Scan.{parallel_scan}
use function_stream.Parallel.FindIf.{parallel_find_if}
use function_stream.Parallel.Equal.{parallel_equal}
use function_stream.Parallel.Count.{parallel_count}
use function_stream.Parallel.ForEach.{parallel_for_each}
use function_stream.Parallel.Sort.{parallel_sort}

module _ (daw : DawAlgorithm) (ts : TaskScheduler) where
  abbrev pub for_each : {A : Type 0} → List A → (A → A) → List A
  for_each range unary_op = parallel_for_each daw ts range unary_op

  abbrev pub reduce : {A : Type 0} → List A → A → (A → A → A) → Outcome A
  reduce range init binary_op = parallel_reduce daw ts range init binary_op

  -- With `std::plus`, on numbers; without an initial value, from `value_type{ }`.
  abbrev pub sum_from : List ℕ → ℕ → Outcome ℕ
  sum_from range init = reduce range init ◌+◌

  abbrev pub min_element : {A : Type 0} → List A → (A → A → Bool) → Outcome (Iterator A)
  min_element range comp = parallel_min_element daw ts range comp

  abbrev pub max_element : {A : Type 0} → List A → (A → A → Bool) → Outcome (Iterator A)
  max_element range comp = parallel_max_element daw ts range comp

  abbrev pub transform : {A B : Type 0} → List A → List B → (A → B) → List B
  transform range out unary_op = parallel_map daw unary_op ts range out

  -- Of one range into itself.
  abbrev pub transform_in_place : {A : Type 0} → List A → (A → A) → List A
  transform_in_place range unary_op = parallel_map_in_place daw unary_op ts range

  -- Of two ranges.
  abbrev pub transform_binary : {A B C : Type 0} → List A → List B → List C → (A → B → C) → List C
  transform_binary range1 range2 out binary_op =
      parallel_map_binary daw binary_op ts range1 range2 out

  -- With an initial value.
  abbrev pub map_reduce_from : {A B : Type 0} → List A → A → (A → B) → (B → B → B) → Outcome B
  map_reduce_from range init map_function reduce_function =
      parallel_map_reduce map_function reduce_function daw ts range init

  -- Without one: the first item, and `std::advance( first, 1 )`, which an empty range does not allow.
  abbrev pub map_reduce : {A B : Type 0} → List A → (A → B) → (B → B → B) → Outcome B
  map_reduce [] map_function reduce_function = faults
  map_reduce (x ∷ xs) map_function reduce_function =
      map_reduce_from xs x map_function reduce_function

  abbrev pub scan : {A : Type 0} → List A → List A → (A → A → A) → Outcome (List A)
  scan range out binary_op = parallel_scan binary_op daw ts range out

  abbrev pub find_if : {A : Type 0} → List A → (A → Bool) → Option (ℕ × A)
  find_if range pred = parallel_find_if pred daw ts range

  abbrev pub equal : {A B : Type 0} → List A → List B → (A → B → Bool) → Outcome Bool
  equal range1 range2 pred = parallel_equal pred daw ts range1 range2

  -- With `==`.
  abbrev pub equal_items : {A B : Type 0} → (A → B → Bool) → List A → List B → Outcome Bool
  equal_items eq range1 range2 = equal range1 range2 eq

  abbrev pub count_if : {A : Type 0} → List A → (A → Bool) → Outcome ℕ
  count_if range pred = parallel_count pred daw ts range

  abbrev pub chunked_for_each_pos : {A S : Type 0} → List A → (View A → ℕ → S → S) → S → S
  chunked_for_each_pos range func = partition_range_pos ts (split_range daw 1 range ts.size) func 0

  -- `srt` is `std::sort` or `std::stable_sort` with the comparison, `merge` is `parallel_sort_merger`.
  abbrev pub sort :
      {A : Type 0}
      → List A
      → (List A → List A)
      → (List A → List A → List A)
      → Option (Outcome (List A))
  sort range srt merge = parallel_sort daw ts srt merge range

  abbrev pub stable_sort :
      {A : Type 0}
      → List A
      → (List A → List A)
      → (List A → List A → List A)
      → Option (Outcome (List A))
  stable_sort range srt merge = parallel_sort daw ts srt merge range
