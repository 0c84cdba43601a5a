-- ===== src/Parallel/Binary.antt =====
-- `parallel_map` of two ranges, of include/daw/fs/impl/algorithms_impl.h.
use function_stream.Base.{
  ℕ, zero, suc, ◌+◌, ◌≤◌, ◌≡◌, refl, ap, ◌∙◌, sym, subst, List, [], ◌∷◌, ◌++◌, length,
  length-append, length-take, map, flatten, run, arith, take, drop, take-append-drop, Permᴰ,
}
use mathlib.Core.Path.{ap₂}
use function_stream.Parallel.{View, DawAlgorithm, TaskScheduler, split_range, views, zip_with}
use function_stream.Parallel.Parts.{located, located-append}
use function_stream.Parallel.Writes.{write_at, run-located_perm}

drop-drop {ℓ} : {A : Type ℓ} (k n j : ℕ) (xs : List A) → j ≡ k + n → drop n (drop k xs) ≡ drop j xs
drop-drop zero n j xs e = ap (λ m. drop m xs) (omega arith)
drop-drop (suc k) n zero xs e = absurd (omega arith)
drop-drop (suc k) zero (suc j) [] e = refl
drop-drop (suc k) (suc n) (suc j) [] e = refl
drop-drop (suc k) n (suc j) (x ∷ xs) e = drop-drop k n j xs (omega arith)

length-drop_add {ℓ} :
    {A : Type ℓ} (n : ℕ) (xs : List A) → n ≤ length xs → n + length (drop n xs) ≡ length xs
length-drop_add zero xs h = omega arith
length-drop_add (suc n) [] h = absurd (omega arith)
length-drop_add (suc n) (x ∷ xs) h = omega (arith, length-drop_add n xs (omega arith))

module _ (daw : DawAlgorithm) {A B C : Type 0} (binary_op : A → B → C) where
  -- The writes of the task for a view of the first range: it reads the second range, and writes, from
  -- as far on as the view is.
  unfoldable pub binary_writes : List B → View A → List (ℕ × C)
  binary_writes range_in2 rng =
      located rng.first (daw.map_ranges A B C binary_op rng.items (drop rng.first range_in2))

  -- The output range before and after; nothing is done for an empty first range.
  unfoldable pub parallel_map_binary : TaskScheduler → List A → List B → List C → List C
  parallel_map_binary ts [] range_in2 out = out
  parallel_map_binary ts (x ∷ xs) range_in2 out =
      let ranges = split_range daw 1 (x ∷ xs) ts.size in
      run write_at (ts.order (ℕ × C) (flatten (map (binary_writes range_in2) ranges))) out

  length-zip_with :
      (xs : List A) (ys : List B)
      → length xs ≤ length ys
      → length (zip_with binary_op xs ys) ≡ length xs
  unfolding zip_with
  length-zip_with [] ys h = refl
  length-zip_with (x ∷ xs) [] h = absurd (omega arith)
  length-zip_with (x ∷ xs) (y ∷ ys) h = ap suc (length-zip_with xs ys (omega arith))

  zip_with-append :
      (xs₁ xs₂ : List A) (ys : List B)
      → length xs₁ ≤ length ys
      → zip_with binary_op (xs₁ ++ xs₂) ys
        ≡ zip_with binary_op xs₁ ys ++ zip_with binary_op xs₂ (drop (length xs₁) ys)
  unfolding zip_with
  zip_with-append [] xs₂ ys h = refl
  zip_with-append (x ∷ xs₁) xs₂ [] h = absurd (omega arith)
  zip_with-append (x ∷ xs₁) xs₂ (y ∷ ys) h =
      ap (◌∷◌ (binary_op x y)) (zip_with-append xs₁ xs₂ ys (omega arith))

  writes-views :
      (range_in2 : List B) (k : ℕ) (parts : List (List A))
      → k + length (flatten parts) ≤ length range_in2
      → flatten (map (binary_writes range_in2) (views k parts))
        ≡ located k (zip_with binary_op (flatten parts) (drop k range_in2))
  unfolding views flatten binary_writes
  writes-views range_in2 k [] h = unfold located zip_with in refl
  writes-views range_in2 k (p ∷ ps) h =
      ap₂ ◌++◌ (ap (located k) (daw.map_ranges-zip_with A B C binary_op p rest fits)) (
        writes-views range_in2 (k + length p) ps (omega (arith, sizes))
        ∙ ap (λ l. located (k + length p) (zip_with binary_op (flatten ps) l))
            (sym (drop-drop k (length p) (k + length p) range_in2 refl))
        ∙ ap (λ n. located (k + n) (zip_with binary_op (flatten ps) (drop (length p) rest)))
            (sym (length-zip_with p rest fits)))
      ∙ sym (
          located-append k (zip_with binary_op p rest)
            (zip_with binary_op (flatten ps) (drop (length p) rest)))
      ∙ ap (located k) (sym (zip_with-append p (flatten ps) rest fits))
    where
      rest : List B
      rest = drop k range_in2

      sizes : length (p ++ flatten ps) ≡ length p + length (flatten ps)
      sizes = length-append p (flatten ps)

      fits : length p ≤ length rest
      fits = omega (arith, sizes, length-drop_add k range_in2 (omega (arith, sizes)))

  -- `parallel_map` of two ranges, the second at least as long as the first, puts what the operation
  -- gives for each pair of items at the front of the output, in order, and leaves the rest of the
  -- output as it was, whatever the split, the number of workers and the interleaving of the writes.
  pub parallel_map_binary-zip_with :
      (ts : TaskScheduler) (range_in1 : List A) (range_in2 : List B) (out : List C)
      → length range_in1 ≤ length range_in2
      → length range_in1 ≤ length out
      → parallel_map_binary ts range_in1 range_in2 out
        ≡ zip_with binary_op range_in1 range_in2 ++ drop (length range_in1) out
  unfolding parallel_map_binary split_range
  parallel_map_binary-zip_with ts [] range_in2 out e h = unfold zip_with in refl
  parallel_map_binary-zip_with ts (x ∷ xs) range_in2 out e h =
      ap (run write_at writes) (sym (take-append-drop n out))
      ∙ run-located_perm [] (take n out) (zip_with binary_op range range_in2) (drop n out) 0 refl
          in_order sizes
    where
      range : List A
      range = x ∷ xs

      n : ℕ
      n = length range

      parts : List (List A)
      parts = daw.partition_range A 1 range ts.size

      all : flatten parts ≡ range
      all = daw.partition_all A 1 range ts.size ts.size_pos

      writes : List (ℕ × C)
      writes = ts.order (ℕ × C) (flatten (map (binary_writes range_in2) (views 0 parts)))

      in_order : Permᴰ writes (located 0 (zip_with binary_op range range_in2))
      in_order =
          subst (λ l. Permᴰ writes l)
            (writes-views range_in2 0 parts (omega (arith, ap length all))
              ∙ ap (λ l. located 0 (zip_with binary_op l range_in2)) all)
            (ts.order-perm (ℕ × C) _)

      sizes : length (take n out) ≡ length (zip_with binary_op range range_in2)
      sizes = omega (arith, length-take n out h, length-zip_with range range_in2 e)
