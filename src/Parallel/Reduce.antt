-- ===== src/Parallel/Reduce.antt =====
-- `parallel_reduce` of include/daw/fs/impl/algorithms_impl.h.
use function_stream.Base.{
  ◌≡◌, refl, ap, ◌∙◌, sym, ◌≢◌, List, [], ◌∷◌, ◌++◌, length, map, flatten, All, replicate, Option,
  none, some, Outcome, returns, ◌>>=◌, deref,
}
use function_stream.Parallel.{
  DawAlgorithm, TaskScheduler, accumulate, split_range, partition_range_pos, write,
}
use function_stream.Parallel.Collect.{collect}
use function_stream.Parallel.Parts.{map-split_range}

module _ {A : Type 0} (op : A → A → A) where
  -- `std::accumulate( std::next( rng.cbegin( ) ), rng.cend( ), rng.front( ), op )`; an empty view has
  -- no front, and leaves its optional empty.
  unfoldable pub reduce_part : List A → Option A
  reduce_part [] = none
  reduce_part (x ∷ xs) = some (accumulate op x xs)

  -- `result = binary_op( result, *results[n] )` for each `n`.
  unfoldable pub reduce_results : A → List (Option A) → Outcome A
  reduce_results result [] = returns result
  reduce_results result (o ∷ os) = do v ← deref o; reduce_results (op result v) os

module _ (daw : DawAlgorithm) (ts : TaskScheduler) {A : Type 0} where
  unfoldable pub parallel_reduce : List A → A → (A → A → A) → Outcome A
  parallel_reduce [] init op = returns init
  parallel_reduce (x ∷ []) init op = returns (op init x)
  parallel_reduce (x ∷ y ∷ rest) init op =
      let ranges = split_range daw 1 (x ∷ y ∷ rest) ts.size in
      let results : List (Option A) =
        partition_range_pos ts ranges (λ rng n. write n (reduce_part op rng.items)) 0
          (replicate (length ranges) none) in
      reduce_results op init results

pub accumulate-append {ℓ κ} :
    {A : Type ℓ} {B : Type κ} (op : B → A → B) (acc : B) (xs ys : List A)
    → accumulate op acc (xs ++ ys) ≡ accumulate op (accumulate op acc xs) ys
unfolding accumulate
accumulate-append op acc [] ys = refl
accumulate-append op acc (x ∷ xs) ys = accumulate-append op (op acc x) xs ys

module _ {A : Type 0} (op : A → A → A) (assoc : (a b c : A) → op (op a b) c ≡ op a (op b c)) where
  -- An associative operation may start from the first item of a part.
  pub accumulate_assoc :
      (acc x : A) (xs : List A) → accumulate op (op acc x) xs ≡ op acc (accumulate op x xs)
  unfolding accumulate
  accumulate_assoc acc x [] = refl
  accumulate_assoc acc x (y ∷ xs) =
      ap (λ a. accumulate op a xs) (assoc acc x y) ∙ accumulate_assoc acc (op x y) xs

  pub reduce_results-parts :
      (acc : A) (parts : List (List A))
      → All (λ part. part ≢ []) parts
      → reduce_results op acc (map (reduce_part op) parts)
        ≡ returns (accumulate op acc (flatten parts))
  unfolding reduce_results reduce_part flatten accumulate
  reduce_results-parts acc [] full = refl
  reduce_results-parts acc ([] ∷ parts) full = absurd (full.0 refl)
  reduce_results-parts acc ((x ∷ xs) ∷ parts) full =
      reduce_results-parts (op acc (accumulate op x xs)) parts full.1
      ∙ ap returns (
          ap (λ a. accumulate op a (flatten parts)) (sym (accumulate_assoc acc x xs))
          ∙ sym (accumulate-append op (op acc x) xs (flatten parts)))

  -- With an associative operation `parallel_reduce` returns what the sequential fold over the whole
  -- range returns, whatever the split, the number of workers and the order of the tasks.
  pub parallel_reduce-accumulate :
      (daw : DawAlgorithm) (ts : TaskScheduler) (range : List A) (init : A)
      → parallel_reduce daw ts range init op ≡ returns (accumulate op init range)
  unfolding parallel_reduce accumulate
  parallel_reduce-accumulate daw ts [] init = refl
  parallel_reduce-accumulate daw ts (x ∷ []) init = refl
  parallel_reduce-accumulate daw ts (x ∷ y ∷ rest) init =
      ap (reduce_results op init) (
        collect (split_range daw 1 range ts.size) (λ rng _. reduce_part op rng.items) ts none
        ∙ map-split_range daw 1 range ts.size (reduce_part op))
      ∙ reduce_results-parts init _ (daw.partition_nonempty A 1 range ts.size)
      ∙ ap (λ l. returns (accumulate op init l)) (daw.partition_all A 1 range ts.size ts.size_pos)
    where
      range : List A
      range = x ∷ y ∷ rest
