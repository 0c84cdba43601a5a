-- ===== src/Scheduler/Growth.antt =====
-- What `wait_for_scope` does to the scheduler, and where the tasks after it go.
use function_stream.Base.{
  ℕ, ◌+◌, ◌<◌, ◌%◌, ◌≡◌, refl, ap, Bool, true, false, List, [], ◌∷◌, length, get_elem?, none,
  Outcome, returns, faults, ◌>>=◌, ◌∙◌, zero, suc, ◌≤◌, arith,
}
use function_stream.Queue.{Round}
use function_stream.Scheduler.{
  FixedTaskScheduler, size, started, has_empty_queue, get_task_id, wait_for_scope, add_queue,
  send_task,
}
use Prim.Native.Nat.{◌^◌}
use native.Mathlib.Nat.{add-mod_right}

get_elem?-past {ℓ} : {A : Type ℓ} (xs : List A) → get_elem? xs (length xs) ≡ none
get_elem?-past [] = refl
get_elem?-past (x ∷ xs) = get_elem?-past xs

-- While there is a queue for each thread, a task id is the index of a queue, and ids go round.
pub get_task_id-lt :
    {T : Type 0} (ts : FixedTaskScheduler T)
    → ts.num_threads ≡ size ts
    → 0 < size ts
    → (id : ℕ) × (ts' : FixedTaskScheduler T) × (get_task_id ts ≡ returns (id, ts'))
      × (id < size ts)
      × (id ≡ ts.task_count % size ts)
      × (ts'.task_count ≡ (ts.task_count + 1) % 2 ^ 64)
      × (ts'.tasks ≡ ts.tasks)
unfolding get_task_id
get_task_id-lt ts e h = (
  ts.task_count % ts.num_threads,
  record ts { task_count = (ts.task_count + 1) % 2 ^ 64 },
  ground arith,
  grind arith,
  ap (λ n. ts.task_count % n) e,
  refl,
  refl,
)

send_task-past :
    {T : Type 0} (ts : FixedTaskScheduler T) (id : ℕ)
    → started ts ≡ true
    → get_elem? ts.tasks id ≡ none
    → (on free : ℕ → Bool) (acquired : Bool) (rounds : List (Round T)) (tsk : T)
    → send_task on free acquired rounds tsk id ts ≡ faults
unfolding send_task
send_task-past ts id h past on free acquired rounds tsk = ground arith

-- So many task ids drawn, one after the other.
unfoldable pub draw_ids : {T : Type 0} → ℕ → FixedTaskScheduler T → Outcome (FixedTaskScheduler T)
unfolding get_task_id
draw_ids zero ts = returns ts
draw_ids (suc n) ts = get_task_id ts >>= λ (id, ts'). draw_ids n ts'

draw_ids-count :
    {T : Type 0} (n : ℕ) (ts : FixedTaskScheduler T)
    → 0 < ts.num_threads
    → ts.task_count + n < 2 ^ 64
    → draw_ids n ts ≡ returns (record ts { task_count = ts.task_count + n })
unfolding draw_ids get_task_id
draw_ids-count zero ts h b = ap (λ c. returns (record ts { task_count = c })) (omega arith)
draw_ids-count (suc n) ts h b =
    let next : (ts.task_count + 1) % 2 ^ 64 ≡ ts.task_count + 1 = grind arith in
    let more : FixedTaskScheduler _ = record ts { task_count = ts.task_count + 1 } in
    let drawn : get_task_id ts ≡ returns (ts.task_count % ts.num_threads, more) =
      rw next (ground arith) in
    rw drawn (
      draw_ids-count n more h (omega (arith, b))
      ∙ ap (λ c. returns (record ts { task_count = c })) (omega arith))

-- Some number at most `n` above `c` is the last before a multiple of `n + 1`.
comes_last : (c n : ℕ) → (k : ℕ) × (k ≤ n) × ((c + k) % (n + 1) ≡ n)
comes_last zero n = (n, omega arith, grind arith)
comes_last (suc c) n = let (k, h, e) = comes_last c n in after k h e
  where
    after :
        (k : ℕ) → k ≤ n → (c + k) % (n + 1) ≡ n → (k : ℕ) × (k ≤ n) × ((suc c + k) % (n + 1) ≡ n)
    after zero h e = (
      n,
      omega arith,
      ap (λ m. m % (n + 1)) (omega arith)
          ∙ add-mod_right c (n + 1)
          ∙ ap (λ m. m % (n + 1)) (omega arith)
          ∙ e,
    )
    after (suc k) h e = (k, omega arith, ap (λ m. m % (n + 1)) (omega arith) ∙ e)

-- `wait_for_scope` on a scheduler with a queue for each thread, all of which hold tasks, counts one
-- thread more than there are queues. Of the task ids that are drawn from then on, before the count of
-- tasks wraps at 64 bits, one within the first `size + 1` lies past the queues; sending a task to it
-- reads past their end, whatever stands in the queues by then, if the scheduler is still started.
pub wait_for_scope_overruns :
    {T : Type 0} (handle : Bool) (ts later : FixedTaskScheduler T) (on free : ℕ → Bool)
    (acquired : Bool) (rounds : List (Round T)) (tsk : T)
    → ts.num_threads ≡ size ts
    → has_empty_queue ts ≡ false
    → ts.task_count + size ts < 2 ^ 64
    → size later ≡ size ts
    → started later ≡ true
    → (k : ℕ) × (drawn after : FixedTaskScheduler T) × (k ≤ size ts)
      × ((wait_for_scope handle ts).num_threads ≡ size ts + 1)
      × (draw_ids k (wait_for_scope handle ts) ≡ returns drawn)
      × (get_task_id drawn ≡ returns (size ts, after))
      × (after.tasks ≡ ts.tasks)
      × (send_task on free acquired rounds tsk (size ts) later ≡ faults)
unfolding wait_for_scope add_queue get_task_id
wait_for_scope_overruns {T} handle ts later on free acquired rounds tsk e full below same running =
    let (k, h, last) = comes_last ts.task_count (size ts) in
    let grown : FixedTaskScheduler T =
      add_queue ts.num_threads handle (record ts { num_threads = ts.num_threads + 1 }) in
    let drawn : FixedTaskScheduler T = record grown { task_count = ts.task_count + k } in
    (
      k,
      drawn,
      record drawn { task_count = (ts.task_count + k + 1) % 2 ^ 64 },
      h,
      ground arith,
      rw full (draw_ids-count k grown (omega arith) (omega (arith, below, h))),
      rw e (ground (arith, last)),
      refl,
      send_task-past later (size ts) running (rw (← same) (get_elem?-past later.tasks)) on free
          acquired rounds tsk,
    )
