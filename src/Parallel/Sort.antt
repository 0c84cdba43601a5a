-- ===== src/Parallel/Sort.antt =====
-- `parallel_sort` of include/daw/fs/impl/algorithms_impl.h, on which `sort` and `stable_sort` stand. The
-- parts are sorted in place and their futures give the sorted views; a view stands for its items.
use function_stream.Base.{
  ◌≤◌, ◌<◌, ◌≡◌, ◌≢◌, refl, ap, ◌∙◌, sym, List, [], ◌∷◌, append-nil, length, map, flatten, All,
  Option, some, ltb, true, Bool-cases, inl, inr, if◌then◌else◌, Outcome, returns, faults, arith,
}
use function_stream.Parallel.{DawAlgorithm, TaskScheduler}
use function_stream.Future.Rounds.{reduce_futures, reduce_futures-alone, alone}

-- `srt` sorts a view, and `merge` is `std::inplace_merge` of two adjacent ones: both are the standard
-- library's. none says that the rounds of the reduction ran out of fuel.
module _ (daw : DawAlgorithm) (ts : TaskScheduler) {A : Type 0} where
  unfoldable pub parallel_sort :
      (List A → List A) → (List A → List A → List A) → List A → Option (Outcome (List A))
  parallel_sort srt merge range =
      if ltb (length range) 1
      then some (returns (srt range))
      else reduce_futures merge (map srt (daw.partition_range A 1 range ts.size))

sort_parts :
    {A : Type 0} (srt : List A → List A) (range : List A) (parts : List (List A))
    → flatten parts ≡ range
    → 1 ≤ length range
    → alone (map srt parts) ≡ (if ltb (length parts) 2 then returns (srt range) else faults)
unfolding flatten
sort_parts srt range [] e h = absurd (omega (arith, ap length e))
sort_parts srt range (p ∷ []) e h = ap (λ l. returns (srt l)) (sym (append-nil p) ∙ e)
sort_parts srt range (p ∷ q ∷ parts) e h = ground arith

no_parts :
    {A : Type 0} (parts : List (List A))
    → All (λ part. part ≢ []) parts
    → length (flatten parts) < 1
    → length parts < 2
unfolding flatten
no_parts [] full h = omega arith
no_parts ([] ∷ parts) full h = absurd (full.0 refl)
no_parts ((x ∷ xs) ∷ parts) full h = absurd (omega arith)

-- `parallel_sort` is the sort of the whole range if the range is left in one part, and it runs into a
-- read out of bounds whenever the range is split in two or more.
pub parallel_sort_outcome :
    {A : Type 0} (daw : DawAlgorithm) (ts : TaskScheduler) (srt : List A → List A)
    (merge : List A → List A → List A) (range : List A)
    → parallel_sort daw ts srt merge range
      ≡ some (
          if ltb (length (daw.partition_range A 1 range ts.size)) 2
          then returns (srt range)
          else faults)
unfolding parallel_sort
parallel_sort_outcome {A} daw ts srt merge range = elim (Bool-cases (ltb (length range) 1)) [
  | inl short ↦
      rw short (ap (λ b. some (if b then returns (srt range) else faults)) (sym (one short)))
  | inr long ↦ rw long (
      reduce_futures-alone merge (map srt parts)
      ∙ ap some (sort_parts srt range parts all (ground arith)))
]
  where
    parts : List (List A)
    parts = daw.partition_range A 1 range ts.size

    all : flatten parts ≡ range
    all = daw.partition_all A 1 range ts.size ts.size_pos

    one : ltb (length range) 1 ≡ true → ltb (length parts) 2 ≡ true
    one short =
        let e = no_parts parts (daw.partition_nonempty A 1 range ts.size) (rw all (ground arith)) in
        ground arith
