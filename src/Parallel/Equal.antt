-- ===== src/Parallel/Equal.antt =====
-- `parallel_equal` of include/daw/fs/impl/algorithms_impl.h.
use function_stream.Base.{
  ℕ, suc, ◌+◌, ◌≡◌, refl, ap, ◌∙◌, sym, Bool, true, false, ◌&&◌, List, [], ◌∷◌, ◌++◌, length,
  length-append, map, flatten, some, get_elem?, get_elem?-middle, Outcome, returns, ◌>>=◌, deref,
  arith, ◌≢◌, ◌==◌, if◌then◌else◌, Bool-cases, ==_eq, inl, inr, run, append_assoc,
}
use function_stream.Parallel.{
  View, DawAlgorithm, TaskScheduler, split_range, count_up, pos_task, partition_range_pos,
}
use mathlib.Core.Path.{ap₂}
use function_stream.Parallel.Collect.{in_sequence}
use function_stream.Parallel.Parts.{map-split_range, items-split_range}

abbrev items_of : {C : Type 0} → List (View C) → List (List C)
items_of = map (λ v. v.items)

abbrev sizes_of : {C : Type 0} → List (View C) → List ℕ
sizes_of = map (λ v. length v.items)

module _ {A B : Type 0} (pred : A → B → Bool) where
  -- `std::equal( first1, last1, first2, last2, pred )`.
  unfoldable pub equal : List A → List B → Bool
  equal [] [] = true
  equal [] (y ∷ ys) = false
  equal (x ∷ xs) [] = false
  equal (x ∷ xs) (y ∷ ys) = pred x y && equal xs ys

  -- The task: `all_equal &= std::equal( …, ranges2[pos], … )`, where a read past the end of the
  -- vector faults.
  unfoldable pub equal_task : List (View B) → View A → ℕ → Outcome Bool → Outcome Bool
  equal_task ranges2 range1 pos all_equal = do
    old ← all_equal
    range2 ← deref (get_elem? ranges2 pos)
    returns (old && equal range1.items range2.items)

  unfoldable pub parallel_equal : DawAlgorithm → TaskScheduler → List A → List B → Outcome Bool
  parallel_equal daw ts range1 range2 =
      let ranges1 = split_range daw 1 range1 ts.size in
      let ranges2 = split_range daw 1 range2 ts.size in
      if length range1 == length range2
      then partition_range_pos ts ranges1 (equal_task ranges2) 0 (returns true)
      else returns false

  module _ (ranges1 : List (View A)) (ranges2 : List (View B)) where
    abbrev task : ℕ → Outcome Bool → Outcome Bool
    task = pos_task ranges1 (equal_task ranges2)

    task_comm : (n m : ℕ) (s : Outcome Bool) → task m (task n s) ≡ task n (task m s)
    unfolding pos_task equal_task
    task_comm n m (returns b) = ground arith
    task_comm n m s = ground arith

  equal-append :
      (xs₁ xs₂ : List A) (ys₁ ys₂ : List B)
      → length xs₁ ≡ length ys₁
      → equal (xs₁ ++ xs₂) (ys₁ ++ ys₂) ≡ equal xs₁ ys₁ && equal xs₂ ys₂
  unfolding equal
  equal-append [] xs₂ [] ys₂ h = refl
  equal-append [] xs₂ (y ∷ ys₁) ys₂ h = absurd (omega arith)
  equal-append (x ∷ xs₁) xs₂ [] ys₂ h = absurd (omega arith)
  equal-append (x ∷ xs₁) xs₂ (y ∷ ys₁) ys₂ h = ground (arith, equal-append xs₁ xs₂ ys₁ ys₂)

  equal-length : (xs : List A) (ys : List B) → length xs ≢ length ys → equal xs ys ≡ false
  unfolding equal
  equal-length [] [] h = absurd (h refl)
  equal-length [] (y ∷ ys) h = refl
  equal-length (x ∷ xs) [] h = refl
  equal-length (x ∷ xs) (y ∷ ys) h = ground (arith, equal-length xs ys (λ e. h (ap suc e)))

  task_found :
      (ranges1 : List (View A)) (ranges2 : List (View B)) (k : ℕ) (b : Bool) (u : View A)
      (v : View B)
      → get_elem? ranges1 k ≡ some u
      → get_elem? ranges2 k ≡ some v
      → task ranges1 ranges2 k (returns b) ≡ returns (b && equal u.items v.items)
  unfolding pos_task equal_task
  task_found ranges1 ranges2 k b u v e f = ground arith

  join :
      (b : Bool) (u : View A) (v : View B) (xs : List A) (ys : List B)
      → length u.items ≡ length v.items
      → b && equal u.items v.items && equal xs ys ≡ b && equal (u.items ++ xs) (v.items ++ ys)
  join b u v xs ys h = ground (arith, equal-append u.items xs v.items ys)

  -- One pair of parts after the other, from position `k` on.
  run-task :
      (ranges1 before1 after1 : List (View A)) (ranges2 before2 after2 : List (View B)) (k : ℕ)
      (b : Bool)
      → ranges1 ≡ before1 ++ after1
      → ranges2 ≡ before2 ++ after2
      → k ≡ length before1
      → k ≡ length before2
      → sizes_of after1 ≡ sizes_of after2
      → run (task ranges1 ranges2) (count_up k (length after1)) (returns b)
        ≡ returns (b && equal (flatten (items_of after1)) (flatten (items_of after2)))
  unfolding count_up flatten
  run-task r1 before1 [] r2 before2 [] k b e₁ e₂ k₁ k₂ h = unfold equal in ground arith
  run-task r1 before1 [] r2 before2 (v ∷ after2) k b e₁ e₂ k₁ k₂ h = cc
  run-task r1 before1 (u ∷ after1) r2 before2 [] k b e₁ e₂ k₁ k₂ h = cc
  run-task r1 before1 (u ∷ after1) r2 before2 (v ∷ after2) k b e₁ e₂ k₁ k₂ h =
      ap (run (task r1 r2) (count_up (k + 1) (length after1))) (
        task_found r1 r2 k b u v (rw e₁ (get_elem?-middle before1 after1 u k k₁))
          (rw e₂ (get_elem?-middle before2 after2 v k k₂)))
      ∙ run-task r1 (before1 ++ u ∷ []) after1 r2 (before2 ++ v ∷ []) after2 (k + 1)
          (b && equal u.items v.items) (e₁ ∙ sym (append_assoc before1 (u ∷ []) after1))
          (e₂ ∙ sym (append_assoc before2 (v ∷ []) after2))
          (omega (arith, length-append before1 (u ∷ [])))
          (omega (arith, length-append before2 (v ∷ []))) (cc)
      ∙ ap returns (join b u v (flatten (items_of after1)) (flatten (items_of after2)) (cc))

  -- `parallel_equal` returns what `std::equal` returns for the whole ranges, of equal sizes or not,
  -- and never reads past the parts of the second range.
  pub parallel_equal-equal :
      (daw : DawAlgorithm) (ts : TaskScheduler) (range1 : List A) (range2 : List B)
      → parallel_equal daw ts range1 range2 ≡ returns (equal range1 range2)
  unfolding parallel_equal
  parallel_equal-equal daw ts range1 range2 = elim (Bool-cases (length range1 == length range2)) [
    | inl same ↦ rw same (compared (==_eq _ _ same))
    | inr differ ↦ rw (differ, equal-length range1 range2 (λ e. ground arith)) refl
  ]
    where
      ranges1 : List (View A)
      ranges1 = split_range daw 1 range1 ts.size

      ranges2 : List (View B)
      ranges2 = split_range daw 1 range2 ts.size

      sizes : length range1 ≡ length range2 → sizes_of ranges1 ≡ sizes_of ranges2
      sizes e =
          map-split_range daw 1 range1 ts.size length
          ∙ daw.partition_sizes A B 1 range1 range2 ts.size e
          ∙ sym (map-split_range daw 1 range2 ts.size length)

      compared :
          length range1 ≡ length range2
          → partition_range_pos ts ranges1 (equal_task ranges2) 0 (returns true)
            ≡ returns (equal range1 range2)
      compared e =
          in_sequence ts ranges1 (equal_task ranges2) (task_comm ranges1 ranges2) (returns true)
          ∙ run-task ranges1 [] ranges1 ranges2 [] ranges2 0 true refl refl refl refl (sizes e)
          ∙ ap₂ (λ xs ys. returns (equal xs ys))
              (items-split_range daw 1 range1 ts.size ts.size_pos)
              (items-split_range daw 1 range2 ts.size ts.size_pos)
