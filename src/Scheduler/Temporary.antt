-- ===== src/Scheduler/Temporary.antt =====
-- `start_temp_task_runner` of src/task_scheduler.cpp and `temp_task_runner` of
-- include/daw/fs/task_scheduler.h: the id and the semaphore of a temporary runner.
use function_stream.Base.{
  ℕ, zero, suc, ◌+◌, ◌%◌, ◌≤◌, ◌<◌, ◌≡◌, refl, ap, ◌∙◌, Bool, true, false, List, [], ◌∷◌, length,
  get_elem?, none, Outcome, returns, faults, ◌>>=◌, arith,
}
use Prim.Native.Nat.{◌^◌}
use function_stream.Latch.{FixedCntSem, fixed_cnt_sem, notify, can_pass}
use function_stream.Queue.{Round}
use function_stream.Scheduler.{FixedTaskScheduler, started, size}
use function_stream.Scheduler.Calls.{wait_for_task_until}

-- The id that its thread passes to `task_runner`, and the semaphore that they share.
pub record TempTaskRunner : Type 0 where
  pub id : ℕ
  pub sem : FixedCntSem

get_elem?-ge : {A : Type 0} (xs : List A) (n : ℕ) → length xs ≤ n → get_elem? xs n ≡ none
get_elem?-ge [] n h = refl
get_elem?-ge (x ∷ xs) zero h = absurd (omega arith)
get_elem?-ge (x ∷ xs) (suc n) h = get_elem?-ge xs n (omega arith)

-- The destructor's notification, before it joins the thread.
unfoldable pub close_temp_task_runner : TempTaskRunner → Outcome FixedCntSem
close_temp_task_runner r = notify r.sem

module _ {T : Type 0} where
  -- The semaphore starts at two, and the scope guard notifies it once; the id is `m_current_id++`, a
  -- `size_t`.
  unfoldable pub start_temp_task_runner :
      FixedTaskScheduler T → Outcome (TempTaskRunner × FixedTaskScheduler T)
  start_temp_task_runner ts = do
    sem ← notify (fixed_cnt_sem 2)
    returns (
      record { id = ts.current_id; sem = sem },
      record ts { current_id = (ts.current_id + 1) % 2 ^ 64 },
    )

  -- `k` runners in a row.
  unfoldable pub start_runners : ℕ → FixedTaskScheduler T → Outcome (FixedTaskScheduler T)
  unfolding start_temp_task_runner
  start_runners zero ts = returns ts
  start_runners (suc k) ts = do (_, ts') ← start_temp_task_runner ts; start_runners k ts'

  wait-overruns :
      (on free : ℕ → Bool) (acquired : Bool) (rounds : List (Round T)) (id : ℕ)
      (ts : FixedTaskScheduler T)
      → started ts ≡ true
      → size ts ≤ id
      → wait_for_task_until on free acquired rounds id ts ≡ faults
  unfolding wait_for_task_until
  wait-overruns on free acquired rounds id ts go h = ground (arith, get_elem?-ge ts.tasks id h)

  start_runners-id :
      (k : ℕ) (ts : FixedTaskScheduler T)
      → ts.current_id + k < 2 ^ 64
      → start_runners k ts ≡ returns (record ts { current_id = ts.current_id + k })
  unfolding start_runners notify
  start_runners-id zero ts h = ground arith
  start_runners-id (suc k) ts h =
      let e : (ts.current_id + 1) % 2 ^ 64 ≡ ts.current_id + 1 = omega arith in
      start_runners-id k (record ts { current_id = (ts.current_id + 1) % 2 ^ 64 })
        (omega (arith, e))
      ∙ ap (λ n. returns (record ts { current_id = n })) (omega (arith, e))

  -- A temporary runner's semaphore counts one until its owner is destroyed, which opens it. Its id,
  -- however, is the number of runners started before it: on a started scheduler, the runner that comes
  -- after as many as there are queues reads past the end of the queues when it waits for a task.
  pub temp_task_runner-overruns :
      (on free : ℕ → Bool) (acquired : Bool) (rounds : List (Round T)) (k : ℕ)
      (ts : FixedTaskScheduler T)
      → started ts ≡ true
      → ts.current_id + k < 2 ^ 64
      → size ts ≤ ts.current_id + k
      → (r : TempTaskRunner) × (ts' : FixedTaskScheduler T) × ((start_runners k ts
            >>= start_temp_task_runner)
          ≡ returns (r, ts'))
        × (can_pass r.sem ≡ false)
        × (close_temp_task_runner r ≡ returns (fixed_cnt_sem 0))
        × (wait_for_task_until on free acquired rounds r.id ts' ≡ faults)
  unfolding start_temp_task_runner close_temp_task_runner notify can_pass
  temp_task_runner-overruns on free acquired rounds k ts go h m = (
    record { id = ts.current_id + k; sem = fixed_cnt_sem 1 },
    record ts { current_id = (ts.current_id + k + 1) % 2 ^ 64 },
    rw (start_runners-id k ts h) refl,
    refl,
    refl,
    wait-overruns on free acquired rounds (ts.current_id + k) _ go m,
  )
