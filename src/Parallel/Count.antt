-- ===== src/Parallel/Count.antt =====
-- `parallel_count` of include/daw/fs/impl/algorithms_impl.h.
use function_stream.Base.{
  ℕ, ◌+◌, ◌≡◌, ap, ◌∙◌, Bool, List, [], ◌∷◌, ◌++◌, length, map, flatten, replicate, Outcome,
  returns, throws, arith, ltb, if◌then◌else◌, Bool-cases, inl, inr,
}
use function_stream.Parallel.{
  View, DawAlgorithm, TaskScheduler, accumulate, split_range, partition_range_pos, write,
}
use function_stream.Parallel.Collect.{collect}
use function_stream.Parallel.Parts.{map-split_range}

module _ {A : Type 0} (pred : A → Bool) where
  -- `std::count_if`.
  unfoldable pub count_if : List A → ℕ
  count_if [] = 0
  count_if (x ∷ xs) = (if pred x then 1 else 0) + count_if xs

  unfoldable pub parallel_count : DawAlgorithm → TaskScheduler → List A → Outcome ℕ
  parallel_count daw ts range =
      let ranges = split_range daw 2 range ts.size in
      let results : List ℕ =
        partition_range_pos ts ranges (λ rng n. write n (count_if rng.items)) 0
          (replicate (length ranges) 0) in
      if ltb (length range) 2
      then throws
      else if ltb (length range) 2
      then returns (count_if range)
      else returns (accumulate ◌+◌ 0 results)

  count_if-append : (xs ys : List A) → count_if (xs ++ ys) ≡ count_if xs + count_if ys
  unfolding count_if
  count_if-append [] ys = omega arith
  count_if-append (x ∷ xs) ys = omega (arith, count_if-append xs ys)

  sum-parts :
      (acc : ℕ) (parts : List (List A))
      → accumulate ◌+◌ acc (map count_if parts) ≡ acc + count_if (flatten parts)
  unfolding accumulate flatten count_if
  sum-parts acc [] = omega arith
  sum-parts acc (p ∷ ps) =
      omega (arith, sum-parts (acc + count_if p) ps, count_if-append p (flatten ps))

  -- `parallel_count` throws on a range of less than two items, and else returns the number of items
  -- of the whole range that satisfy the predicate.
  pub parallel_count-count_if :
      (daw : DawAlgorithm) (ts : TaskScheduler) (range : List A)
      → parallel_count daw ts range
        ≡ (if ltb (length range) 2 then throws else returns (count_if range))
  unfolding parallel_count
  parallel_count-count_if daw ts range = elim (Bool-cases (ltb (length range) 2)) [
    | inl short ↦ rw short
    | inr long ↦ rw long (ap returns counted)
  ]
    where
      ranges : List (View A)
      ranges = split_range daw 2 range ts.size

      counted :
          accumulate ◌+◌ 0 (
            partition_range_pos ts ranges
              (λ rng n. write n (count_if rng.items))
              0
              (replicate (length ranges) 0))
          ≡ count_if range
      counted =
          ap (accumulate ◌+◌ 0) (
            collect ranges (λ rng _. count_if rng.items) ts 0
            ∙ map-split_range daw 2 range ts.size count_if)
          ∙ sum-parts 0 (daw.partition_range A 2 range ts.size)
          ∙ ap (λ l. 0 + count_if l) (daw.partition_all A 2 range ts.size ts.size_pos)
          ∙ omega arith
