-- ===== src/Algorithms/Composed.antt =====
-- How the functions of include/daw/fs/algorithms.h fit together.
use function_stream.Base.{
  ℕ, zero, suc, ◌≤◌, ◌≡◌, refl, ap, ◌∙◌, sym, List, [], ◌∷◌, ◌++◌, length, map, drop, append-nil,
  ltb, if◌then◌else◌, returns, throws, arith,
}
use function_stream.Parallel.{DawAlgorithm, TaskScheduler, accumulate}
use function_stream.Parallel.Reduce.{parallel_reduce-accumulate}
use function_stream.Parallel.Transform.{parallel_map-map}
use function_stream.Parallel.MapReduce.{parallel_map_reduce-accumulate}
use function_stream.Algorithms.{reduce, transform, map_reduce_from, map_reduce}

drop-length {ℓ} : {A : Type ℓ} (n : ℕ) (xs : List A) → length xs ≤ n → drop n xs ≡ []
drop-length zero [] h = refl
drop-length zero (x ∷ xs) h = absurd (omega arith)
drop-length (suc n) [] h = refl
drop-length (suc n) (x ∷ xs) h = drop-length n xs (omega arith)

module _ {A B : Type 0} (map_function : A → B) (reduce_function : B → B → B)
    (assoc : (a b c : B)
      → reduce_function (reduce_function a b) c ≡ reduce_function a (reduce_function b c))
    (daw : DawAlgorithm) (ts : TaskScheduler) where
  -- With an associative reduction, `map_reduce` of two or more items from an initial value returns what
  -- `transform` to a range of the same length and then `reduce` from the mapped initial value return.
  pub map_reduce_from-reduce :
      (range : List A) (out : List B) (init : A)
      → 2 ≤ length range
      → length range ≡ length out
      → map_reduce_from daw ts range init map_function reduce_function
        ≡ reduce daw ts
            (transform daw ts range out map_function)
            (map_function init)
            reduce_function
  map_reduce_from-reduce range out init h same =
      parallel_map_reduce-accumulate map_function reduce_function assoc daw ts range init
      ∙ long
      ∙ ap (λ l. returns (accumulate reduce_function (map_function init) l)) (sym images)
      ∙ sym (parallel_reduce-accumulate reduce_function assoc daw ts _ (map_function init))
    where
      long :
          (if ltb (length range) 2
            then throws
            else returns (accumulate reduce_function (map_function init) (map map_function range)))
          ≡ returns (accumulate reduce_function (map_function init) (map map_function range))
      long = ground arith

      images : transform daw ts range out map_function ≡ map map_function range
      images =
          parallel_map-map daw map_function ts range out (omega arith)
          ∙ ap (λ l. map map_function range ++ l) (drop-length (length range) out (omega arith))
          ∙ append-nil (map map_function range)

  -- With an associative reduction, `map_reduce` without an initial value folds the images of all items
  -- from the left if there are three or more; it throws on one or two, which its parameters allow.
  pub map_reduce-accumulate :
      (x : A) (xs : List A)
      → map_reduce daw ts (x ∷ xs) map_function reduce_function ≡ (
          if ltb (length (x ∷ xs)) 3
          then throws
          else returns (accumulate reduce_function (map_function x) (map map_function xs)))
  map_reduce-accumulate x xs =
      parallel_map_reduce-accumulate map_function reduce_function assoc daw ts xs x
      ∙ ap
          (λ b.
            if b
            then throws
            else returns (accumulate reduce_function (map_function x) (map map_function xs)))
          same
    where
      same : ltb (length xs) 2 ≡ ltb (length (x ∷ xs)) 3
      same = ground arith
