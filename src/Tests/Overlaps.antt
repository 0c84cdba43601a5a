-- ===== src/Tests/Overlaps.antt =====
-- Two tasks that each append two numbers to a list, and whose steps alternate.
use function_stream.Base.{
  ℕ, ◌+◌, ◌≤◌, ◌≡◌, ◌⊎◌, refl, true, false, List, [], ◌∷◌, ◌++◌, map, Permᴰ, run,
}
use function_stream.Latch.{fixed_cnt_sem, add_notifier, notify, can_pass}
use function_stream.Group.Overlap.{
  Begun, Overlapping, overlapping_group, Step, schedule, leave, takes, acts, notifies, Reach, here,
  next,
}
use function_stream.Group.Overlap.Counting.{Interleaving, begun_tasks}
use function_stream.Group.Overlap.Waiting.{wait_finds-Interleaving}
use function_stream.Group.Overlap.Returning.{remaining, steps_of, overlapping_wait_returns}

abbrev appends : ℕ → List ℕ
appends t = t ∷ (t + 10) ∷ []

abbrev append : ℕ → List ℕ → List ℕ
append a m = m ++ a ∷ []

abbrev tasks : List ℕ
tasks = 5 ∷ 7 ∷ []

abbrev ended : ℕ → Begun ℕ ℕ
ended t = record { task = t; past = t ∷ (t + 10) ∷ []; rest = []; notified = true }

abbrev in_turns : Overlapping ℕ ℕ (List ℕ)
in_turns = record {
  todo = [];
  queued = [];
  dropped = [];
  begun = ended 5 ∷ ended 7 ∷ [];
  sem = fixed_cnt_sem 0;
  scoped = false;
  log = 5 ∷ 7 ∷ 15 ∷ 17 ∷ [];
  memory = 5 ∷ 7 ∷ 15 ∷ 17 ∷ [];
}

abbrev at : ℕ → List ℕ → List ℕ → Begun ℕ ℕ
at t past rest = record { task = t; past = past; rest = rest; notified = false }

to_in_turns : Reach appends append true (overlapping_group tasks []) in_turns
unfolding add_notifier notify function_stream.Latch.decrement
to_in_turns =
    next
      (next
        (next
          (next
            (next
              (next
                (next
                  (next
                    (next
                      (next (next here (schedule 5 (7 ∷ []) refl refl)) (schedule 7 [] refl refl))
                      (takes [] (7 ∷ []) 5 refl refl))
                    (takes [] [] 7 refl refl))
                  (acts [] (at 7 [] (7 ∷ 17 ∷ []) ∷ []) (at 5 [] (5 ∷ 15 ∷ [])) 5 (15 ∷ []) refl
                    refl refl))
                (acts (at 5 (5 ∷ []) (15 ∷ []) ∷ []) [] (at 7 [] (7 ∷ 17 ∷ [])) 7 (17 ∷ []) refl
                  refl refl))
              (leave (fixed_cnt_sem 2) refl refl refl refl))
            (acts [] (at 7 (7 ∷ []) (17 ∷ []) ∷ []) (at 5 (5 ∷ []) (15 ∷ [])) 15 [] refl refl refl))
          (acts (at 5 (5 ∷ 15 ∷ []) [] ∷ []) [] (at 7 (7 ∷ []) (17 ∷ [])) 17 [] refl refl refl))
        (notifies (at 5 (5 ∷ 15 ∷ []) [] ∷ []) [] (at 7 (7 ∷ 17 ∷ []) []) (fixed_cnt_sem 1) refl
          refl refl refl refl))
      (notifies [] (ended 7 ∷ []) (at 5 (5 ∷ 15 ∷ []) []) (fixed_cnt_sem 0) refl refl refl refl
        refl)

in_turns_passes : can_pass in_turns.sem ≡ true
unfolding can_pass
in_turns_passes = refl

wait_finds-Interleaving_example :
    (in_turns.todo ≡ [])
    × (in_turns.queued ≡ [])
    × (in_turns.dropped ≡ [])
    × Permᴰ (begun_tasks in_turns.begun) tasks
    × Interleaving (map appends (begun_tasks in_turns.begun)) in_turns.log
    × (in_turns.memory ≡ run append in_turns.log [])
wait_finds-Interleaving_example =
    wait_finds-Interleaving appends append true to_in_turns in_turns_passes

overlapping_wait_returns_example :
    ((can_pass in_turns.sem ≡ true)
      ⊎ ((p : Overlapping ℕ ℕ (List ℕ)) × Step appends append true in_turns p
          × (remaining appends append p + 1 ≡ remaining appends append in_turns)))
    × (remaining appends append in_turns ≤ steps_of appends 3 tasks + 1)
overlapping_wait_returns_example = overlapping_wait_returns appends append to_in_turns
