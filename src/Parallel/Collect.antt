-- ===== src/Parallel/Collect.antt =====
-- One slot for each task: whatever the order of the tasks, each finds its own slot as it was, and
-- leaves its result there.
use function_stream.Base.{
  ℕ, ◌+◌, ◌≡◌, refl, ap, ◌∙◌, List, [], ◌∷◌, ◌++◌, length, length-append, map, arith, append_assoc,
  some, modify, modify_comm_ne, get_elem?-middle, modify-middle, get_elem?, run, run-perm,
  replicate, sym,
}
use function_stream.Parallel.{View, TaskScheduler, count_up, pos_task, partition_range_pos}
use native.Mathlib.Decide.{ℕ_discrete}

-- Tasks that commute may be run in the order of their positions.
pub in_sequence :
    {A S : Type 0} (ts : TaskScheduler) (ranges : List (View A)) (func : View A → ℕ → S → S)
    → ((n m : ℕ) (s : S)
        → pos_task ranges func m (pos_task ranges func n s)
          ≡ pos_task ranges func n (pos_task ranges func m s))
    → (s : S)
    → partition_range_pos ts ranges func 0 s
      ≡ run (pos_task ranges func) (count_up 0 (length ranges)) s
unfolding partition_range_pos
in_sequence ts ranges func comm s =
    run-perm (pos_task ranges func) comm (ts.order-perm ℕ _) s
    ∙ ap (λ n. run (pos_task ranges func) (count_up 0 n) s) (omega arith)

module _ {A R : Type 0} (ranges : List (View A)) (g : View A → R → R) where
  abbrev pub slot_task : ℕ → List R → List R
  slot_task = pos_task ranges (λ rng n results. modify results n (g rng))

  pub slot_task_comm :
      (n m : ℕ) (s : List R) → slot_task m (slot_task n s) ≡ slot_task n (slot_task m s)
  unfolding pos_task
  slot_task_comm n m s = elim (ℕ_discrete n m) [
    | yes same ↦ rw same refl
    | no differ ↦ grind (arith, modify_comm_ne)
  ]

  slot_task_found :
      (k : ℕ) (s : List R) (rng : View A)
      → get_elem? ranges k ≡ some rng
      → slot_task k s ≡ modify s k (g rng)
  unfolding pos_task
  slot_task_found k s rng e = rw (e, pos_task)

  -- One task after the other, from position `k` on.
  run-count_up :
      (before after : List (View A)) (done : List R) (x : R) (k : ℕ)
      → ranges ≡ before ++ after
      → k ≡ length before
      → k ≡ length done
      → run slot_task (count_up k (length after)) (done ++ replicate (length after) x)
        ≡ done ++ map (λ rng. g rng x) after
  unfolding count_up
  run-count_up before [] done x k e kb kd = refl
  run-count_up before (rng ∷ after) done x k e kb kd =
      ap (run slot_task (count_up (k + 1) (length after))) this_slot
      ∙ run-count_up (before ++ rng ∷ []) after (done ++ g rng x ∷ []) x (k + 1)
          (e ∙ sym (append_assoc before (rng ∷ []) after))
          (omega (arith, length-append before (rng ∷ [])))
          (omega (arith, length-append done (g rng x ∷ [])))
      ∙ append_assoc done (g rng x ∷ []) (map (λ rng. g rng x) after)
    where
      found : get_elem? ranges k ≡ some rng
      found = rw e (get_elem?-middle before after rng k kb)

      this_slot :
          slot_task k (done ++ x ∷ replicate (length after) x)
          ≡ done ++ g rng x ∷ [] ++ replicate (length after) x
      this_slot =
          slot_task_found k _ rng found
          ∙ modify-middle done (replicate (length after) x) x k (g rng) kd
          ∙ sym (append_assoc done (g rng x ∷ []) (replicate (length after) x))

  -- Whatever the order of the tasks, slot `n` of the results holds what the task for `ranges[n]`
  -- made of the initial value.
  pub collect :
      (ts : TaskScheduler) (x : R)
      → partition_range_pos ts ranges
          (λ rng n results. modify results n (g rng))
          0
          (replicate (length ranges) x)
        ≡ map (λ rng. g rng x) ranges
  collect ts x =
      in_sequence ts ranges (λ rng n results. modify results n (g rng)) slot_task_comm _
      ∙ run-count_up [] ranges [] x 0 refl refl refl
