-- ===== src/Parallel.antt =====
-- What the algorithms of include/daw/fs/algorithms.h share: views, the split of a range into parts,
-- and `partition_range_pos` of include/daw/fs/impl/algorithms_impl.h, run in any order of its tasks.
pub mod Parts
pub mod Collect
pub mod Reduce
pub mod Interleaved
pub mod Updates
pub mod Writes
pub mod Transform
pub mod Binary
pub mod Scan
pub mod Equal
pub mod ForEach
pub mod Count
pub mod MinMax
pub mod MapReduce
pub mod FindIf
pub mod Sort
pub mod Chunked
use function_stream.Base.{
  ℕ, zero, suc, ◌+◌, ◌-◌, ◌<◌, ◌≤◌, ◌≡◌, List, [], ◌∷◌, length, modify, get_elem?, All, flatten,
  map, Permᴰ, run, Option, none, some, ◌≢◌,
}

-- A `daw::view` of a range: where it begins in the range, and its items.
pub record View (A : Type 0) : Type 0 where
  pub first : ℕ
  pub items : List A

-- `std::accumulate`, and the left fold that `daw::algorithm::reduce` promises.
unfoldable pub accumulate {ℓ κ} : {A : Type ℓ} {B : Type κ} → (B → A → B) → B → List A → B
accumulate op acc [] = acc
accumulate op acc (x ∷ xs) = accumulate op (op acc x) xs

-- What a binary map gives: a value for each item of the first range, as far as the second goes.
unfoldable pub zip_with {ℓ κ μ} :
    {A : Type ℓ} {B : Type κ} {C : Type μ} → (A → B → C) → List A → List B → List C
zip_with op [] ys = []
zip_with op (x ∷ xs) [] = []
zip_with op (x ∷ xs) (y ∷ ys) = op x y ∷ zip_with op xs ys

-- The functions of header_libraries that the algorithms call, with what they document:
-- `partition_range<MinRangeSize>( range, max_parts )` cuts a range into consecutive parts that are
-- not empty, at places that depend on the sizes only; `reduce` folds from the left; `map`, here
-- `map_range` and `map_ranges`, gives the images of the items in order, a second range being at least as
-- long as the first.
pub record DawAlgorithm : Type 1 where
  pub partition_range : (A : Type 0) → ℕ → List A → ℕ → List (List A)
  pub partition_all :
      (A : Type 0) (min_size : ℕ) (range : List A) (max_parts : ℕ)
      → 0 < max_parts
      → flatten (partition_range A min_size range max_parts) ≡ range
  pub partition_nonempty :
      (A : Type 0) (min_size : ℕ) (range : List A) (max_parts : ℕ)
      → All (λ part. part ≢ []) (partition_range A min_size range max_parts)
  pub partition_sizes :
      (A B : Type 0) (min_size : ℕ) (range₁ : List A) (range₂ : List B) (max_parts : ℕ)
      → length range₁ ≡ length range₂
      → map length (partition_range A min_size range₁ max_parts)
        ≡ map length (partition_range B min_size range₂ max_parts)
  pub reduce : (A : Type 0) → (A → A → A) → A → List A → A
  pub reduce-accumulate :
      (A : Type 0) (op : A → A → A) (init : A) (range : List A)
      → reduce A op init range ≡ accumulate op init range
  pub map_range : (A B : Type 0) → (A → B) → List A → List B
  pub map_range-map :
      (A B : Type 0) (op : A → B) (range : List A) → map_range A B op range ≡ map op range
  pub map_ranges : (A B C : Type 0) → (A → B → C) → List A → List B → List C
  pub map_ranges-zip_with :
      (A B C : Type 0) (op : A → B → C) (range₁ : List A) (range₂ : List B)
      → length range₁ ≤ length range₂
      → map_ranges A B C op range₁ range₂ ≡ zip_with op range₁ range₂

-- A task scheduler as a waiter sees it: its size, and an order in which it ran a group of tasks. By
-- `Group.Order` a waiter passes only when all have run, and any order may have been taken.
pub record TaskScheduler : Type 1 where
  pub size : ℕ
  pub size_pos : 0 < size
  pub order : (T : Type 0) → List T → List T
  pub order-perm : (T : Type 0) (tasks : List T) → Permᴰ (order T tasks) tasks

-- Consecutive views from a position on.
unfoldable pub views : {A : Type 0} → ℕ → List (List A) → List (View A)
views first [] = []
views first (part ∷ parts) =
    record { first = first; items = part } ∷ views (first + length part) parts

-- `split_range_t<MinRangeSize>`.
unfoldable pub split_range : DawAlgorithm → {A : Type 0} → ℕ → List A → ℕ → List (View A)
split_range daw {A} min_size range max_parts =
    views 0 (daw.partition_range A min_size range max_parts)

-- `n` numbers from `k` on.
unfoldable pub count_up : ℕ → ℕ → List ℕ
count_up k zero = []
count_up k (suc n) = k ∷ count_up (k + 1) n

-- Task `n` runs `func` on `ranges[n]`.
unfoldable pub pos_task : {A S : Type 0} → List (View A) → (View A → ℕ → S → S) → ℕ → S → S
pos_task ranges func n s = elim (get_elem? ranges n) [ none ↦ s | some rng ↦ func rng n s ]

-- `partition_range_pos( ranges, func, ts, start_pos )`, waited for: the tasks `start_pos`, …,
-- `ranges.size( ) - 1` on the memory that they share.
unfoldable pub partition_range_pos :
    TaskScheduler → {A S : Type 0} → List (View A) → (View A → ℕ → S → S) → ℕ → S → S
partition_range_pos ts ranges func start_pos =
    run (pos_task ranges func) (ts.order ℕ (count_up start_pos (length ranges - start_pos)))

-- `results[n] = value`.
abbrev pub write : {R : Type 0} → ℕ → R → List R → List R
write n value results = modify results n (λ _. value)
