-- ===== src/Parallel/ForEach.antt =====
-- `parallel_for_each` of include/daw/fs/impl/algorithms_impl.h, and `fill` of
-- include/daw/fs/algorithms.h. The tasks write items of the range in place; their writes are
-- interleaved item by item.
use function_stream.Base.{
  ℕ, zero, suc, ◌+◌, ◌≡◌, refl, ap, ◌∙◌, sym, List, [], ◌∷◌, ◌++◌, length, length-append, map,
  flatten, modify, modify_comm, modify-middle, run, run-perm, replicate, arith, append_assoc,
}
use mathlib.Core.Path.{ap₂}
use function_stream.Parallel.{View, DawAlgorithm, TaskScheduler, split_range, views, count_up}

count_up-append :
    (k n m : ℕ) {j i : ℕ} → j ≡ n + m → i ≡ k + n → count_up k j ≡ count_up k n ++ count_up i m
unfolding count_up
count_up-append k zero m {j} {i} e f = ap₂ count_up {x = k} {y = i} (omega arith) (omega arith)
count_up-append k (suc n) m {j = zero} e f = absurd (omega arith)
count_up-append k (suc n) m {j = suc j} e f =
    ap (◌∷◌ k) (count_up-append (k + 1) n m (omega arith) (omega arith))

module _ {A : Type 0} where
  -- The items that the task for a view visits: `while( first != last ) { ( *func )( *first ); ++first; }`
  unfoldable pub visits : View A → List ℕ
  visits rng = count_up rng.first (length rng.items)

  -- `partition_range( range, … )` splits a range that is not empty, and its tasks call `func` on
  -- each item of their view.
  unfoldable pub parallel_for_each : DawAlgorithm → TaskScheduler → List A → (A → A) → List A
  parallel_for_each daw ts [] func = []
  parallel_for_each daw ts (x ∷ xs) func =
      let ranges = split_range daw 1 (x ∷ xs) ts.size in
      run (λ i range. modify range i func) (ts.order ℕ (flatten (map visits ranges))) (x ∷ xs)

  -- `[&value]( auto &item ) { item = value; }`
  unfoldable pub fill : DawAlgorithm → TaskScheduler → List A → A → List A
  fill daw ts range value = parallel_for_each daw ts range (λ item. value)

  visits-views :
      (k : ℕ) (parts : List (List A))
      → flatten (map visits (views k parts)) ≡ count_up k (length (flatten parts))
  unfolding visits views flatten
  visits-views k [] = unfold count_up in refl
  visits-views k (p ∷ ps) =
      ap (◌++◌ (count_up k (length p))) (visits-views (k + length p) ps)
      ∙ sym (count_up-append k (length p) (length (flatten ps)) (length-append p (flatten ps)) refl)

  -- One item after the other.
  pub run-modify :
      (func : A → A) (before after : List A) (k : ℕ)
      → k ≡ length before
      → run (λ i range. modify range i func) (count_up k (length after)) (before ++ after)
        ≡ before ++ map func after
  unfolding count_up
  run-modify func before [] k e = refl
  run-modify func before (x ∷ after) k e =
      ap (run (λ i range. modify range i func) (count_up (k + 1) (length after)))
        (modify-middle before after x k func e ∙ sym (append_assoc before (func x ∷ []) after))
      ∙ run-modify func (before ++ func x ∷ []) after (k + 1)
          (omega (arith, length-append before (func x ∷ [])))
      ∙ append_assoc before (func x ∷ []) (map func after)

  -- `parallel_for_each` calls `func` once on every item of the range, whatever the split, the number
  -- of workers and the interleaving of the tasks.
  pub parallel_for_each-map :
      (daw : DawAlgorithm) (ts : TaskScheduler) (range : List A) (func : A → A)
      → parallel_for_each daw ts range func ≡ map func range
  unfolding parallel_for_each split_range
  parallel_for_each-map daw ts [] func = refl
  parallel_for_each-map daw ts (x ∷ xs) func =
      run-perm step (λ i j s. modify_comm func func (λ a. refl) s i j) (ts.order-perm ℕ _) range
      ∙ ap (λ l. run step l range)
          (visits-views 0 _
            ∙ ap (λ l. count_up 0 (length l)) (daw.partition_all A 1 range ts.size ts.size_pos))
      ∙ run-modify func [] range 0 refl
    where
      range : List A
      range = x ∷ xs

      step : ℕ → List A → List A
      step i range = modify range i func

  map-const : (value : A) (xs : List A) → map (λ item. value) xs ≡ replicate (length xs) value
  map-const value [] = refl
  map-const value (x ∷ xs) = ap (◌∷◌ value) (map-const value xs)

  -- `fill` leaves a range of the same length that holds the value at every place.
  pub fill-replicate :
      (daw : DawAlgorithm) (ts : TaskScheduler) (range : List A) (value : A)
      → fill daw ts range value ≡ replicate (length range) value
  unfolding fill
  fill-replicate daw ts range value =
      parallel_for_each-map daw ts range (λ item. value) ∙ map-const value range
