-- ===== src/Scheduler/Startup.antt =====
-- Which workers `start` leaves alive.
use function_stream.Base.{
  ℕ, zero, suc, ◌+◌, ◌≡◌, refl, ◌∙◌, ap, sym, Bool, true, false, List, [], ◌∷◌, ◌++◌, append_assoc,
  append-nil, if◌then◌else◌, arith, map,
}
use function_stream.Parallel.{count_up}
use function_stream.Scheduler.{FixedTaskScheduler, Worker, started, start, start_loop, add_queue}

-- Workers whose handle was moved from: they return at once.
abbrev pub dead_workers : ℕ → ℕ → List Worker
dead_workers n m = map (λ i. record { id = i; handle = false }) (count_up n m)

module _ {T : Type 0} where
  start_loop-dead :
      (n m : ℕ) (ts : FixedTaskScheduler T)
      → (start_loop n m false ts).threads ≡ ts.threads ++ dead_workers n m
  unfolding start_loop add_queue count_up
  start_loop-dead n zero ts = sym (append-nil ts.threads)
  start_loop-dead n (suc m) ts =
      start_loop-dead (n + 1) m (add_queue n false ts)
      ∙ append_assoc ts.threads (record { id = n; handle = false } ∷ []) (dead_workers (n + 1) m)

  start_loop-first :
      (handle : Bool) (n more : ℕ) (ts : FixedTaskScheduler T)
      → n ≡ suc more
      → (start_loop 0 n handle ts).threads
        ≡ ts.threads ++ record { id = 0; handle = handle } ∷ dead_workers 1 more
  unfolding start_loop add_queue
  start_loop-first handle zero more ts e = absurd (omega arith)
  start_loop-first handle (suc n) more ts e =
      start_loop-dead 1 n (add_queue 0 handle ts)
      ∙ append_assoc ts.threads (record { id = 0; handle = handle } ∷ []) (dead_workers 1 n)
      ∙ ap (λ k. ts.threads ++ record { id = 0; handle = handle } ∷ dead_workers 1 k) (omega arith)

  threads-if :
      (b : Bool) (old new : FixedTaskScheduler T) {threads : List Worker}
      → new.threads ≡ threads
      → (if b then old else new).threads ≡ (if b then old.threads else threads)
  threads-if true old new e = refl
  threads-if false old new e = e

  -- `start` makes a worker for each queue, and hands its handle to the first: of the workers that it
  -- makes, only that for queue 0 can reach the scheduler, and all others return at once. A scheduler
  -- that is started already is left as it was.
  pub start_one_worker :
      (handle : Bool) (ts : FixedTaskScheduler T) (more : ℕ)
      → ts.num_threads ≡ suc more
      → (start handle ts).threads ≡ (
          if started ts
          then ts.threads
          else ts.threads ++ record { id = 0; handle = handle } ∷ dead_workers 1 more)
  unfolding start
  start_one_worker handle ts more e =
      threads-if (started ts) ts
        (start_loop 0 ts.num_threads handle (record ts { continue = true }))
        (start_loop-first handle ts.num_threads more (record ts { continue = true }) e)
