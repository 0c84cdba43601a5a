-- ===== src/Parallel/FindIf.antt =====
-- `parallel_find_if` of include/daw/fs/impl/algorithms_impl.h. An iterator is a position with the
-- item there, and none is the end of the range.
use function_stream.Base.{
  ℕ, ◌≡◌, refl, ap, ◌∙◌, sym, Bool, List, [], ◌∷◌, ◌++◌, length, map, flatten, replicate, Option,
  none, some, if◌then◌else◌, modify, modify-id, arith,
}
use mathlib.Core.Path.{fun_ext}
use function_stream.Parallel.{
  View, DawAlgorithm, TaskScheduler, split_range, partition_range_pos, write,
}
use function_stream.Parallel.Collect.{collect}
use function_stream.Parallel.Parts.{located, positions, positions-split_range}

module _ {A : Type 0} (pred : A → Bool) where
  -- `std::find_if`.
  unfoldable pub find_if : List (ℕ × A) → Option (ℕ × A)
  find_if [] = none
  find_if ((i, x) ∷ rest) = if pred x then some (i, x) else find_if rest

  -- The task: `if( it != range.end( ) ) results[pos] = it;`
  unfoldable pub find_task : View A → ℕ → List (Option (ℕ × A)) → List (Option (ℕ × A))
  find_task rng pos results = elim (find_if (positions rng)) [
    | none ↦ results
    | some it ↦ write pos (some it) results
  ]

  -- `for( auto const &it : results ) if( it ) return *it; return range_in.end( );`
  unfoldable pub first_found : List (Option (ℕ × A)) → Option (ℕ × A)
  first_found [] = none
  first_found (none ∷ results) = first_found results
  first_found (some it ∷ results) = some it

  unfoldable pub parallel_find_if : DawAlgorithm → TaskScheduler → List A → Option (ℕ × A)
  parallel_find_if daw ts range =
      let ranges = split_range daw 1 range ts.size in
      first_found (partition_range_pos ts ranges find_task 0 (replicate (length ranges) none))

  abbrev keep_found : View A → Option (ℕ × A) → Option (ℕ × A)
  keep_found rng old = elim (find_if (positions rng)) [ none ↦ old | some it ↦ some it ]

  find_task-modify :
      (rng : View A) (n : ℕ) (results : List (Option (ℕ × A)))
      → find_task rng n results ≡ modify results n (keep_found rng)
  unfolding find_task
  find_task-modify rng n results = split (find_if (positions rng))
    where
      split :
          (o : Option (ℕ × A))
          → (elim o [ none ↦ results | some it ↦ write n (some it) results ])
            ≡ modify results n (λ old. elim o [ none ↦ old | some it ↦ some it ])
      split none = sym (modify-id results n)
      split (some it) = refl

  find_if-append :
      (xs ys : List (ℕ × A))
      → find_if (xs ++ ys) ≡ (elim (find_if xs) [ none ↦ find_if ys | some it ↦ some it ])
  unfolding find_if
  find_if-append [] ys = refl
  find_if-append ((i, x) ∷ xs) ys = ground (arith, find_if-append xs ys)

  first_found-cons :
      (o : Option (ℕ × A)) (results : List (Option (ℕ × A))) {found : Option (ℕ × A)}
      → first_found results ≡ found
      → first_found ((elim o [ none ↦ none | some it ↦ some it ]) ∷ results)
        ≡ (elim o [ none ↦ found | some it ↦ some it ])
  unfolding first_found
  first_found-cons none results e = e
  first_found-cons (some it) results e = refl

  first_found-flatten :
      (ranges : List (View A))
      → first_found (map (λ rng. keep_found rng none) ranges)
        ≡ find_if (flatten (map positions ranges))
  unfolding first_found flatten find_if
  first_found-flatten [] = refl
  first_found-flatten (rng ∷ ranges) =
      first_found-cons (find_if (positions rng)) _ (first_found-flatten ranges)
      ∙ sym (find_if-append (positions rng) (flatten (map positions ranges)))

  -- `parallel_find_if` returns the position that `std::find_if` finds in the whole range, which is
  -- the first match, or the end if there is none.
  pub parallel_find_if-find_if :
      (daw : DawAlgorithm) (ts : TaskScheduler) (range : List A)
      → parallel_find_if daw ts range ≡ find_if (located 0 range)
  unfolding parallel_find_if
  parallel_find_if-find_if daw ts range =
      ap first_found (
        ap (λ task. partition_range_pos ts ranges task 0 (replicate (length ranges) none))
          (fun_ext λ rng. fun_ext λ n. fun_ext λ s. find_task-modify rng n s)
        ∙ collect ranges keep_found ts none)
      ∙ first_found-flatten ranges
      ∙ ap find_if (positions-split_range daw 1 range ts.size ts.size_pos)
    where
      ranges : List (View A)
      ranges = split_range daw 1 range ts.size
