-- ===== src/Parallel/Transform.antt =====
-- `parallel_map` of one range, of include/daw/fs/impl/algorithms_impl.h: `transform` in the interface.
use function_stream.Base.{
  modify, ℕ, ◌+◌, ◌≤◌, ◌≡◌, refl, ap, ◌∙◌, sym, subst, List, [], ◌∷◌, ◌++◌, length, length-map,
  length-take, map, flatten, run, arith, take, drop, take-append-drop, Permᴰ,
}
use mathlib.Core.Path.{ap₂}
use function_stream.Parallel.{View, DawAlgorithm, TaskScheduler, split_range, views}
use function_stream.Parallel.ForEach.{visits, parallel_for_each, parallel_for_each-map}
use function_stream.Parallel.Parts.{located, located-append}
use function_stream.Parallel.Writes.{write_at, run-located_perm}

module _ (daw : DawAlgorithm) {A B : Type 0} (unary_op : A → B) where
  -- The writes of the task for a view: its images, from as far into the output as the view is into
  -- the input.
  unfoldable pub map_writes : View A → List (ℕ × B)
  map_writes rng = located rng.first (daw.map_range A B unary_op rng.items)

  -- The output range before and after; nothing is done for an empty input.
  unfoldable pub parallel_map : TaskScheduler → List A → List B → List B
  parallel_map ts [] out = out
  parallel_map ts (x ∷ xs) out =
      let ranges = split_range daw 1 (x ∷ xs) ts.size in
      run write_at (ts.order (ℕ × B) (flatten (map map_writes ranges))) out

  map-append : (xs ys : List A) → map unary_op (xs ++ ys) ≡ map unary_op xs ++ map unary_op ys
  map-append [] ys = refl
  map-append (x ∷ xs) ys = ap (◌∷◌ (unary_op x)) (map-append xs ys)

  writes-views :
      (k : ℕ) (parts : List (List A))
      → flatten (map map_writes (views k parts)) ≡ located k (map unary_op (flatten parts))
  unfolding views flatten map_writes
  writes-views k [] = unfold located in refl
  writes-views k (p ∷ ps) =
      ap₂ ◌++◌ (ap (located k) (daw.map_range-map A B unary_op p)) (
        writes-views (k + length p) ps
        ∙ ap (λ n. located (k + n) (map unary_op (flatten ps))) (sym (length-map unary_op p)))
      ∙ sym (located-append k (map unary_op p) (map unary_op (flatten ps)))
      ∙ ap (located k) (sym (map-append p (flatten ps)))

  pub parallel_map-map :
      (ts : TaskScheduler) (range : List A) (out : List B)
      → length range ≤ length out
      → parallel_map ts range out ≡ map unary_op range ++ drop (length range) out
  unfolding parallel_map split_range
  parallel_map-map ts [] out h = refl
  parallel_map-map ts (x ∷ xs) out h =
      ap (run write_at writes) (sym (take-append-drop n out))
      ∙ run-located_perm [] (take n out) (map unary_op range) (drop n out) 0 refl in_order sizes
    where
      range : List A
      range = x ∷ xs

      n : ℕ
      n = length range

      writes : List (ℕ × B)
      writes = ts.order (ℕ × B) (flatten (map map_writes (split_range daw 1 range ts.size)))

      in_order : Permᴰ writes (located 0 (map unary_op range))
      in_order =
          subst (λ l. Permᴰ writes l)
            (writes-views 0 _
              ∙ ap (λ l. located 0 (map unary_op l))
                  (daw.partition_all A 1 range ts.size ts.size_pos))
            (ts.order-perm (ℕ × B) _)

      sizes : length (take n out) ≡ length (map unary_op range)
      sizes = omega (arith, length-take n out h, length-map unary_op range)

-- `parallel_map` with its output at its input: each task reads and writes the items of its view one
-- after the other, as `daw::algorithm::map` does.
unfoldable pub parallel_map_in_place :
    DawAlgorithm → {A : Type 0} → (A → A) → TaskScheduler → List A → List A
parallel_map_in_place daw unary_op ts [] = []
parallel_map_in_place daw unary_op ts (x ∷ xs) =
    let ranges = split_range daw 1 (x ∷ xs) ts.size in
    run (λ i range. modify range i unary_op) (ts.order ℕ (flatten (map visits ranges))) (x ∷ xs)

-- In place, `parallel_map` replaces each item by its image, once.
pub parallel_map_in_place-map :
    (daw : DawAlgorithm) {A : Type 0} (unary_op : A → A) (ts : TaskScheduler) (range : List A)
    → parallel_map_in_place daw unary_op ts range ≡ map unary_op range
unfolding parallel_map_in_place
parallel_map_in_place-map daw unary_op ts [] = refl
parallel_map_in_place-map daw unary_op ts (x ∷ xs) =
    unfold parallel_for_each in parallel_for_each-map daw ts (x ∷ xs) unary_op
