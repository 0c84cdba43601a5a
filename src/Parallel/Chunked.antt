-- ===== src/Parallel/Chunked.antt =====
-- `parallel_for_each_index` of include/daw/fs/impl/algorithms_impl.h and `chunked_for_each` of
-- include/daw/fs/algorithms.h, over the `partition_range` that presets its semaphore.
use function_stream.Base.{
  ℕ, suc, ◌+◌, ◌≡◌, ◌≢◌, refl, ap, ◌∙◌, sym, List, [], ◌∷◌, length, flatten, All, run, ◌==◌, arith,
}
use function_stream.Latch.{can_pass}
use function_stream.Group.{Group, preset_group, Reach}
use function_stream.Group.Preset.{preset_never_opens, preset-empty}
use function_stream.Parallel.{View, DawAlgorithm, TaskScheduler, split_range, views, count_up}

-- The group whose semaphore `partition_range` of a vector of ranges returns.
unfoldable pub partition_range : {A S : Type 0} → List (View A) → S → Group (View A) S
partition_range ranges s = preset_group ranges s

-- The task of `parallel_for_each_index`: `func( n )` for the positions of its range.
unfoldable pub index_task : {A S : Type 0} → (ℕ → S → S) → View A → S → S
index_task func rng s = run func (count_up rng.first (length rng.items)) s

module _ (daw : DawAlgorithm) (ts : TaskScheduler) {A S : Type 0} where
  -- The tasks of `parallel_for_each_index`, which waits for their semaphore.
  unfoldable pub parallel_for_each_index : List A → S → Group (View A) S
  unfolding partition_range
  parallel_for_each_index range s = partition_range (split_range daw 1 range ts.size) s

  -- Those of `chunked_for_each`, which waits for it too. The tasks run the caller's function.
  unfoldable pub chunked_for_each : List A → S → Group (View A) S
  unfolding partition_range
  chunked_for_each range s = partition_range (split_range daw 1 range ts.size) s

length-views : {A : Type 0} (k : ℕ) (parts : List (List A)) → length (views k parts) ≡ length parts
unfolding views
length-views k [] = refl
length-views k (p ∷ ps) = ap suc (length-views (k + length p) ps)

-- Only the empty range has no parts.
no_parts :
    {A : Type 0} (parts : List (List A)) (range : List A)
    → flatten parts ≡ range
    → All (λ part. part ≢ []) parts
    → (length range == 0) ≡ (length parts == 0)
unfolding flatten
no_parts [] range e f = ground (arith, ap length e)
no_parts ([] ∷ ps) range e f = absurd (f.0 refl)
no_parts ((x ∷ xs) ∷ ps) range e f = ground (arith, ap length e)

preset-waits :
    {A S : Type 0} (body : View A → S → S) (ranges : List (View A)) (s : S) {g : Group (View A) S}
    → Reach body (partition_range ranges s) g
    → can_pass g.sem ≡ (length ranges == 0)
unfolding partition_range can_pass
preset-waits body [] s r = rw (preset-empty body r) refl
preset-waits body (v ∷ ranges) s r = ground (arith, preset_never_opens body (omega arith) r)

-- `chunked_for_each` and `parallel_for_each_index` return only on an empty range: whatever their tasks
-- do and in whatever interleaving, the semaphore that they wait for is open exactly if the range has no
-- items.
pub chunked_for_each-hangs :
    (daw : DawAlgorithm) (ts : TaskScheduler) {A S : Type 0} (range : List A) (s : S)
    (func : View A → S → S) (index_func : ℕ → S → S) {g h : Group (View A) S}
    → Reach func (chunked_for_each daw ts range s) g
    → Reach (index_task index_func) (parallel_for_each_index daw ts range s) h
    → (can_pass g.sem ≡ (length range == 0)) × (can_pass h.sem ≡ (length range == 0))
unfolding chunked_for_each parallel_for_each_index split_range
chunked_for_each-hangs daw ts {A} range s func index_func r q =
    (preset-waits func _ s r ∙ same, preset-waits (index_task index_func) _ s q ∙ same)
  where
    parts : List (List A)
    parts = daw.partition_range A 1 range ts.size

    same : (length (views 0 parts) == 0) ≡ (length range == 0)
    same =
        ap (λ n. n == 0) (length-views 0 parts)
        ∙ sym (
            no_parts parts range (daw.partition_all A 1 range ts.size ts.size_pos)
              (daw.partition_nonempty A 1 range ts.size))
