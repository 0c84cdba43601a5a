-- ===== src/Parallel/Scan.antt =====
-- `parallel_scan` of include/daw/fs/impl/algorithms_impl.h. The output does not alias the input.
pub mod Slots
pub mod Result
pub mod Two
use function_stream.Base.{
  ℕ, zero, suc, ◌+◌, ◌-◌, List, [], ◌∷◌, ◌++◌, length, map, Option, none, some, get_elem?, modify,
  drop, run, replicate, Outcome, returns, throws, faults, ◌>>=◌, deref, ◌==◌, if◌then◌else◌,
}
use function_stream.Parallel.{View, DawAlgorithm, TaskScheduler, split_range, count_up, write}
use function_stream.Parallel.Parts.{located}
use function_stream.Parallel.Writes.{write_at}

module _ {A : Type 0} (op : A → A → A) where
  -- `std::partial_sum`, and its loop after the first item.
  unfoldable pub running : A → List A → List A
  running acc [] = []
  running acc (x ∷ xs) = op acc x ∷ running (op acc x) xs

  unfoldable pub partial_sum : List A → List A
  partial_sum [] = []
  partial_sum (x ∷ xs) = x ∷ running x xs

  -- What the task for part `n` hands to `add_result`: the last output of the first part, and the
  -- reduction of every other one. An empty view has no front.
  unfoldable pub part_value : DawAlgorithm → ℕ → List A → Outcome A
  part_value daw zero part = deref (get_elem? (partial_sum part) (length (partial_sum part) - 1))
  part_value daw (suc n) [] = faults
  part_value daw (suc n) (x ∷ xs) = returns (daw.reduce A op x xs)

  unfoldable pub part_values : DawAlgorithm → ℕ → List (View A) → Outcome (List A)
  part_values daw n [] = returns []
  part_values daw n (rng ∷ rngs) = do
    v ← part_value daw n rng.items
    vs ← part_values daw (n + 1) rngs
    returns (v ∷ vs)

  -- One round of the loop of `add_result`, under the lock of its slot.
  abbrev pub add_to : A → Option A → Option A
  add_to value none = some value
  add_to value (some r) = some (op r value)

  abbrev pub slot_update : ℕ × A → List (Option A) → List (Option A)
  slot_update u p1_results = modify p1_results u.0 (add_to u.1)

  -- `add_result( pos, value )` with `n` slots: the rounds for `pos + 1`, …
  unfoldable pub add_result : ℕ → A → ℕ → List (ℕ × A)
  add_result pos value n = map (λ i. (i, value)) (count_up (pos + 1) (n - (pos + 1)))

  -- The rounds of all tasks from `pos` on.
  unfoldable pub all_updates : ℕ → List A → ℕ → List (ℕ × A)
  all_updates pos [] n = []
  all_updates pos (v ∷ vs) n = add_result pos v n ++ all_updates (pos + 1) vs n

  -- The second round of tasks: from `*p1_results[n]` on through the items of `ranges[n]`.
  unfoldable pub second_writes : List (Option A) → List (View A) → Outcome (List (ℕ × A))
  second_writes os [] = returns []
  second_writes [] (rng ∷ rngs) = faults
  second_writes (o ∷ os) (rng ∷ rngs) = do
    base ← deref o
    ws ← second_writes os rngs
    returns (located rng.first (running base rng.items) ++ ws)

  -- The waits of both rounds: the slots that `add_result` fills with the parts' values, then the
  -- second round. In the first round only the task for the first part writes to the output.
  unfoldable pub scan_rounds :
      TaskScheduler → View A → List (View A) → List A → List A → Outcome (List A)
  scan_rounds ts rng rngs range_out values = do
    let n = length (rng ∷ rngs)
    let p1_results = run slot_update (ts.order (ℕ × A) (all_updates 0 values n)) (replicate n none)
    ws ← second_writes (drop 1 p1_results) rngs
    returns (
        run write_at (ts.order (ℕ × A) ws)
          (run write_at (located rng.first (partial_sum rng.items)) range_out))

  unfoldable pub scan_ranges :
      DawAlgorithm → TaskScheduler → List (View A) → List A → Outcome (List A)
  scan_ranges daw ts [] range_out = returns range_out
  scan_ranges daw ts (rng ∷ rngs) range_out = do
    values ← part_values daw 0 (rng ∷ rngs)
    scan_rounds ts rng rngs range_out values

  -- `range_out.front( ) = range_in.front( )`.
  unfoldable pub copy_front : List A → List A → List A
  copy_front [] range_out = range_out
  copy_front (x ∷ xs) range_out = write 0 x range_out

  -- The output range that is left.
  unfoldable pub parallel_scan : DawAlgorithm → TaskScheduler → List A → List A → Outcome (List A)
  parallel_scan daw ts range_in range_out =
      if length range_in == length range_out
      then (if length range_in == 2
          then returns (copy_front range_in range_out)
          else scan_ranges daw ts (split_range daw 1 range_in ts.size) range_out)
      else throws
