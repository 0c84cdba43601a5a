-- ===== src/Parallel/MinMax.antt =====
-- `parallel_min_element` and `parallel_max_element` of include/daw/fs/impl/algorithms_impl.h. An
-- iterator is a position with the item there, and none is the end of the range.
use function_stream.Base.{
  ℕ, ◌≡◌, refl, ap, ◌∙◌, sym, ◌≢◌, Bool, true, false, List, [], ◌∷◌, length, map, map-map, flatten,
  All, replicate, Option, none, some, Outcome, returns, faults, ◌>>=◌, deref, arith, if◌then◌else◌,
}
use function_stream.Parallel.{
  View, DawAlgorithm, TaskScheduler, accumulate, split_range, partition_range_pos, write,
}
use function_stream.Parallel.Collect.{collect}
use function_stream.Parallel.Parts.{
  located, positions, positions-split_range, positions-nonempty, located-ne,
}
use function_stream.Parallel.Reduce.{accumulate-append, accumulate_assoc}

abbrev pub Iterator : Type 0 → Type 0
Iterator A = Option (ℕ × A)

module _ {A : Type 0} (better : A → A → Bool) where
  -- The loop of `std::min_element` and `std::max_element`: a later item replaces the best so far
  -- only if it is better.
  abbrev pub pick : ℕ × A → ℕ × A → ℕ × A
  pick best it = if better best.1 it.1 then it else best

  unfoldable pub best_element : List (ℕ × A) → Iterator A
  best_element [] = none
  best_element (x ∷ xs) = some (accumulate pick x xs)

  -- The same loop over the tasks' iterators, which it compares by what they point at.
  unfoldable pub best_loop : Iterator A → List (Iterator A) → Outcome (Iterator A)
  best_loop best [] = returns best
  best_loop best (it ∷ its) = do
    b ← deref best
    x ← deref it
    best_loop (if better b.1 x.1 then it else best) its

  -- `*std::min_element( results.cbegin( ), results.cend( ), … )`.
  unfoldable pub best_result : List (Iterator A) → Outcome (Iterator A)
  best_result [] = faults
  best_result (it ∷ its) = best_loop it its

  unfoldable pub parallel_best_element :
      DawAlgorithm → TaskScheduler → List A → Outcome (Iterator A)
  parallel_best_element daw ts [] = returns none
  parallel_best_element daw ts (x ∷ xs) =
      let ranges = split_range daw 1 (x ∷ xs) ts.size in
      best_result (
        partition_range_pos ts ranges (λ rng n. write n (best_element (positions rng))) 0
          (replicate (length ranges) none))

-- `cmp( *first, *smallest )` replaces the smallest so far.
unfoldable pub parallel_min_element :
    {A : Type 0} → DawAlgorithm → TaskScheduler → List A → (A → A → Bool) → Outcome (Iterator A)
parallel_min_element daw ts range cmp = parallel_best_element (λ best it. cmp it best) daw ts range

-- `cmp( *largest, *first )` replaces the largest so far.
unfoldable pub parallel_max_element :
    {A : Type 0} → DawAlgorithm → TaskScheduler → List A → (A → A → Bool) → Outcome (Iterator A)
parallel_max_element daw ts range cmp = parallel_best_element (λ best it. cmp best it) daw ts range

-- `std::min_element` and `std::max_element` on a whole range.
unfoldable pub min_element : {A : Type 0} → List A → (A → A → Bool) → Iterator A
min_element range cmp = best_element (λ best it. cmp it best) (located 0 range)

unfoldable pub max_element : {A : Type 0} → List A → (A → A → Bool) → Iterator A
max_element range cmp = best_element (λ best it. cmp best it) (located 0 range)

-- What the standard asks of a comparison.
pub record IsStrictWeak {A : Type 0} (cmp : A → A → Bool) : Type 0 where
  pub less_trans : (a b c : A) → cmp a b ≡ true → cmp b c ≡ true → cmp a c ≡ true
  pub not_less_trans : (a b c : A) → cmp a b ≡ false → cmp b c ≡ false → cmp a c ≡ false

module _ {A : Type 0} (better : A → A → Bool) (weak : IsStrictWeak better) where
  pick_assoc : (x y z : ℕ × A) → pick better (pick better x y) z ≡ pick better x (pick better y z)
  pick_assoc x y z = ground (arith, weak.less_trans x.1 y.1 z.1, weak.not_less_trans x.1 y.1 z.1)

  some_if : (b : Bool) (x y : ℕ × A) → (if b then some x else some y) ≡ some (if b then x else y)
  some_if true x y = refl
  some_if false x y = refl

  best_loop-eq :
      (best : ℕ × A) (parts : List (List (ℕ × A)))
      → All (λ part. part ≢ []) parts
      → best_loop better (some best) (map (best_element better) parts)
        ≡ returns (some (accumulate (pick better) best (flatten parts)))
  unfolding best_loop best_element accumulate flatten
  best_loop-eq best [] full = refl
  best_loop-eq best ([] ∷ parts) full = absurd (full.0 refl)
  best_loop-eq best ((x ∷ xs) ∷ parts) full =
      ap (λ it. best_loop better it (map (best_element better) parts))
        (some_if (better best.1 part_best.1) part_best best)
      ∙ best_loop-eq (pick better best part_best) parts full.1
      ∙ ap (λ b. returns (some (accumulate (pick better) b (flatten parts))))
          (sym (accumulate_assoc (pick better) pick_assoc best x xs))
      ∙ ap (λ b. returns (some b))
          (sym (accumulate-append (pick better) (pick better best x) xs (flatten parts)))
    where
      part_best : ℕ × A
      part_best = accumulate (pick better) x xs

  best_result-eq :
      (parts : List (List (ℕ × A)))
      → All (λ part. part ≢ []) parts
      → flatten parts ≢ []
      → best_result better (map (best_element better) parts)
        ≡ returns (best_element better (flatten parts))
  unfolding best_result best_element accumulate flatten
  best_result-eq [] full some_item = absurd (some_item refl)
  best_result-eq ([] ∷ parts) full some_item = absurd (full.0 refl)
  best_result-eq ((x ∷ xs) ∷ parts) full some_item =
      best_loop-eq (accumulate (pick better) x xs) parts full.1
      ∙ ap (λ b. returns (some b)) (sym (accumulate-append (pick better) x xs (flatten parts)))

  parallel_best_element-eq :
      (daw : DawAlgorithm) (ts : TaskScheduler) (range : List A)
      → parallel_best_element better daw ts range ≡ returns (best_element better (located 0 range))
  unfolding parallel_best_element
  parallel_best_element-eq daw ts [] = unfold best_element located in refl
  parallel_best_element-eq daw ts (x ∷ xs) =
      ap (best_result better) (
        collect ranges (λ rng _. best_element better (positions rng)) ts none
        ∙ sym (map-map (best_element better) positions ranges))
      ∙ best_result-eq (map positions ranges) full (λ e. located-ne x xs (sym all ∙ e))
      ∙ ap (λ l. returns (best_element better l)) all
    where
      ranges : List (View A)
      ranges = split_range daw 1 (x ∷ xs) ts.size

      all : flatten (map positions ranges) ≡ located 0 (x ∷ xs)
      all = positions-split_range daw 1 (x ∷ xs) ts.size ts.size_pos

      full : All (λ part. part ≢ []) (map positions ranges)
      full = positions-nonempty daw 1 (x ∷ xs) ts.size

flip-IsStrictWeak :
    {A : Type 0} {cmp : A → A → Bool} → IsStrictWeak cmp → IsStrictWeak (λ a b. cmp b a)
flip-IsStrictWeak weak = record {
  less_trans = λ a b c p q. weak.less_trans c b a q p;
  not_less_trans = λ a b c p q. weak.not_less_trans c b a q p;
}

-- With a strict weak order `parallel_min_element` returns the very iterator that the loop of
-- `std::min_element` over the whole range returns, the end for an empty range, whatever the split,
-- the number of workers and the order of the tasks.
pub parallel_min_element-min_element :
    {A : Type 0} (cmp : A → A → Bool)
    → IsStrictWeak cmp
    → (daw : DawAlgorithm) (ts : TaskScheduler) (range : List A)
    → parallel_min_element daw ts range cmp ≡ returns (min_element range cmp)
unfolding parallel_min_element min_element
parallel_min_element-min_element cmp weak daw ts range =
    parallel_best_element-eq (λ best it. cmp it best) (flip-IsStrictWeak weak) daw ts range

-- With a strict weak order `parallel_max_element` returns the very iterator that the loop of
-- `std::max_element` over the whole range returns, the end for an empty range, whatever the split,
-- the number of workers and the order of the tasks.
pub parallel_max_element-max_element :
    {A : Type 0} (cmp : A → A → Bool)
    → IsStrictWeak cmp
    → (daw : DawAlgorithm) (ts : TaskScheduler) (range : List A)
    → parallel_max_element daw ts range cmp ≡ returns (max_element range cmp)
unfolding parallel_max_element max_element
parallel_max_element-max_element cmp weak daw ts range =
    parallel_best_element-eq (λ best it. cmp best it) weak daw ts range
