-- ===== src/Parallel/MapReduce.antt =====
-- `parallel_map_reduce` of include/daw/fs/impl/algorithms_impl.h.
use function_stream.Base.{
  ◌≡◌, refl, ap, ◌∙◌, sym, ◌≢◌, List, [], ◌∷◌, ◌++◌, length, map, flatten, All, replicate, Option,
  none, some, Outcome, returns, throws, false, faults, ◌>>=◌, deref, arith, ltb, if◌then◌else◌,
  Bool-cases, inl, inr,
}
use function_stream.Parallel.{
  DawAlgorithm, TaskScheduler, accumulate, split_range, partition_range_pos, write,
}
use function_stream.Parallel.Collect.{collect}
use function_stream.Parallel.Parts.{map-split_range, parts-ne-nil}
use function_stream.Parallel.Reduce.{reduce_part, reduce_results, reduce_results-parts}

module _ {A B : Type 0} (map_function : A → B) (reduce_function : B → B → B) where
  -- The task: `result = map_function( rng.pop_front( ) )`, then the rest of the view.
  unfoldable pub map_reduce_part : List A → Option B
  map_reduce_part [] = none
  map_reduce_part (x ∷ xs) =
      some (accumulate (λ result y. reduce_function result (map_function y)) (map_function x) xs)

  -- `reduce_function( map_function( init ), *results[0] )`, then `*results[n]` from 1 on.
  unfoldable pub map_reduce_results : A → List (Option B) → Outcome B
  map_reduce_results init [] = faults
  map_reduce_results init (o ∷ os) = do
    v ← deref o
    reduce_results reduce_function (reduce_function (map_function init) v) os

  unfoldable pub parallel_map_reduce : DawAlgorithm → TaskScheduler → List A → A → Outcome B
  parallel_map_reduce daw ts range init =
      let ranges = split_range daw 2 range ts.size in
      let results : List (Option B) =
        partition_range_pos ts ranges (λ rng n. write n (map_reduce_part rng.items)) 0
          (replicate (length ranges) none) in
      if ltb (length range) 2 then throws else map_reduce_results init results

  accumulate-map :
      (acc : B) (xs : List A)
      → accumulate (λ result y. reduce_function result (map_function y)) acc xs
        ≡ accumulate reduce_function acc (map map_function xs)
  unfolding accumulate
  accumulate-map acc [] = refl
  accumulate-map acc (x ∷ xs) = accumulate-map (reduce_function acc (map_function x)) xs

  part-map : (p : List A) → map_reduce_part p ≡ reduce_part reduce_function (map map_function p)
  unfolding map_reduce_part reduce_part
  part-map [] = refl
  part-map (x ∷ xs) = ap some (accumulate-map (map_function x) xs)

  map_parts :
      (parts : List (List A))
      → map map_reduce_part parts ≡ map (reduce_part reduce_function) (map (map map_function) parts)
  map_parts [] = refl
  map_parts (p ∷ ps) = cc (part-map p, map_parts ps)

  All-map :
      (parts : List (List A))
      → All (λ part. part ≢ []) parts
      → All (λ part. part ≢ []) (map (map map_function) parts)
  All-map [] full = tt
  All-map ([] ∷ ps) full = absurd (full.0 refl)
  All-map ((x ∷ xs) ∷ ps) full = ((λ e. cc), All-map ps full.1)

  map-append :
      (xs ys : List A) → map map_function (xs ++ ys) ≡ map map_function xs ++ map map_function ys
  map-append [] ys = refl
  map-append (x ∷ xs) ys = ap (◌∷◌ (map_function x)) (map-append xs ys)

  map-flatten :
      (parts : List (List A))
      → flatten (map (map map_function) parts) ≡ map map_function (flatten parts)
  unfolding flatten
  map-flatten [] = refl
  map-flatten (p ∷ ps) =
      ap (◌++◌ (map map_function p)) (map-flatten ps) ∙ sym (map-append p (flatten ps))

  results_loop :
      (init : A) (parts : List (List A))
      → parts ≢ []
      → map_reduce_results init (map map_reduce_part parts)
        ≡ reduce_results reduce_function (map_function init) (map map_reduce_part parts)
  unfolding map_reduce_results reduce_results
  results_loop init [] h = absurd (h refl)
  results_loop init (p ∷ ps) h = refl

  -- With an associative reduction `parallel_map_reduce` throws on a range of less than two items,
  -- and else returns the sequential fold of the mapped items, which starts from the mapped initial
  -- value, whatever the split, the number of workers and the order of the tasks.
  pub parallel_map_reduce-accumulate :
      ((a b c : B)
        → reduce_function (reduce_function a b) c ≡ reduce_function a (reduce_function b c))
      → (daw : DawAlgorithm) (ts : TaskScheduler) (range : List A) (init : A)
      → parallel_map_reduce daw ts range init ≡ (
          if ltb (length range) 2
          then throws
          else returns (accumulate reduce_function (map_function init) (map map_function range)))
  unfolding parallel_map_reduce
  parallel_map_reduce-accumulate assoc daw ts range init =
      elim (Bool-cases (ltb (length range) 2)) [
        | inl short ↦ rw short
        | inr long ↦
            rw long (
              ap (map_reduce_results init) slots
              ∙ results_loop init parts (some_part long)
              ∙ folded)
      ]
    where
      parts : List (List A)
      parts = daw.partition_range A 2 range ts.size

      slots :
          partition_range_pos ts
            (split_range daw 2 range ts.size)
            (λ rng n. write n (map_reduce_part rng.items))
            0
            (replicate (length (split_range daw 2 range ts.size)) none)
          ≡ map map_reduce_part parts
      slots =
          collect (split_range daw 2 range ts.size) (λ rng _. map_reduce_part rng.items) ts none
          ∙ map-split_range daw 2 range ts.size map_reduce_part

      all : flatten parts ≡ range
      all = daw.partition_all A 2 range ts.size ts.size_pos

      some_part : ltb (length range) 2 ≡ false → parts ≢ []
      some_part long = parts-ne-nil parts (λ e. ground (arith, all))

      folded :
          reduce_results reduce_function (map_function init) (map map_reduce_part parts)
          ≡ returns (accumulate reduce_function (map_function init) (map map_function range))
      folded =
          ap (reduce_results reduce_function (map_function init)) (map_parts parts)
          ∙ reduce_results-parts reduce_function assoc (map_function init) _
              (All-map parts (daw.partition_nonempty A 2 range ts.size))
          ∙ ap (λ l. returns (accumulate reduce_function (map_function init) l))
              (map-flatten parts ∙ ap (map map_function) all)
