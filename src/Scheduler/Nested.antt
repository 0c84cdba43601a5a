-- ===== src/Scheduler/Nested.antt =====
-- `task_scheduler::wait_for` of include/daw/fs/task_scheduler.h, called by tasks: the workers of a
-- scheduler, what each of them does, and the worker that `wait_for_scope` may add.
use function_stream.Base.{
  ℕ, zero, suc, ◌≡◌, refl, ap, sym, subst, ◌∙◌, Bool, true, false, List, [], ◌∷◌, ◌++◌, append-nil,
  get_elem?, modify, replicate, some, if◌then◌else◌, ◌==◌, ◌||◌, returns, All,
}
use function_stream.Queue.{Round, stopped}
use function_stream.Scheduler.{
  FixedTaskScheduler, started, run_next_task, send_task, has_empty_queue, wait_for_scope, start,
  stop,
}

-- A worker in the loop of `task_runner`, in a task, or in a task that waits for another one to end.
pub data Doing : Type 0 where
  idle : Doing
  performs : ℕ → Doing
  awaits : ℕ → ℕ → Doing

-- The workers by their ids, and the tasks that have ended. A task is a number.
pub record Pool : Type 0 where
  pub scheduler : FixedTaskScheduler ℕ
  pub workers : List Doing
  pub ended : List ℕ

abbrev pub become : ℕ → Doing → List Doing → List Doing
become n w workers = modify workers n (λ _. w)

-- What a call of `wait_for` by worker `n`, in task `t`, for the task `k` leaves while it waits.
unfoldable pub wait_for_task : ℕ → ℕ → ℕ → Pool → Pool
unfolding has_empty_queue wait_for_scope
wait_for_task n t k p = record p {
  scheduler = wait_for_scope true p.scheduler;
  workers =
      become n (awaits t k) p.workers ++ (if has_empty_queue p.scheduler then [] else idle ∷ []);
}

abbrev pub has_ended : ℕ → List ℕ → Bool
has_ended k [] = false
has_ended k (t ∷ ended) = k == t || has_ended k ended

-- What the workers do, and other threads: these send tasks and stop the scheduler, and, where `outside`
-- says so, they call `start` and `wait_for`, which may add workers, or run tasks by `run_next_task` or
-- as temporary task runners.
pub data Step (outside : Bool) (p q : Pool) : Type 0 where
  takes :
      (free : ℕ → Bool) (n t : ℕ) (ts : FixedTaskScheduler ℕ)
      → get_elem? p.workers n ≡ some idle
      → started p.scheduler ≡ true
      → run_next_task free n p.scheduler ≡ returns (some t, ts)
      → q ≡ record p { scheduler = ts; workers = become n (performs t) p.workers }
      → Step outside p q
  waits :
      (n t k : ℕ)
      → get_elem? p.workers n ≡ some (performs t)
      → q ≡ wait_for_task n t k p
      → Step outside p q
  passes :
      (n t k : ℕ)
      → get_elem? p.workers n ≡ some (awaits t k)
      → has_ended k p.ended ≡ true
      → q ≡ record p { workers = become n (performs t) p.workers }
      → Step outside p q
  ends :
      (n t : ℕ)
      → get_elem? p.workers n ≡ some (performs t)
      → q ≡ record p { workers = become n idle p.workers; ended = t ∷ p.ended }
      → Step outside p q
  sends :
      (on free : ℕ → Bool) (acquired : Bool) (rounds : List (Round ℕ)) (t id : ℕ) (accepted : Bool)
      (ts : FixedTaskScheduler ℕ)
      → send_task on free acquired rounds t id p.scheduler ≡ returns (stopped (accepted, ts))
      → q ≡ record p { scheduler = ts }
      → Step outside p q
  stops : q ≡ record p { scheduler = stop p.scheduler } → Step outside p q
  starts :
      (handle : Bool)
      → outside ≡ true
      → started p.scheduler ≡ false
      → q ≡ record p {
        scheduler = start handle p.scheduler;
        workers = p.workers ++ replicate p.scheduler.num_threads idle;
      }
      → Step outside p q
  waits_outside :
      (handle : Bool)
      → outside ≡ true
      → q ≡ record p {
        scheduler = wait_for_scope handle p.scheduler;
        workers = p.workers ++ (if has_empty_queue p.scheduler then [] else idle ∷ []);
      }
      → Step outside p q
  runs_outside :
      (free : ℕ → Bool) (id t : ℕ) (ts : FixedTaskScheduler ℕ)
      → outside ≡ true
      → run_next_task free id p.scheduler ≡ returns (some t, ts)
      → q ≡ record p { scheduler = ts; ended = t ∷ p.ended }
      → Step outside p q

pub data Reach (outside : Bool) (start : Pool) : Pool → Type 0 where
  here : Reach outside start start
  next : {p q : Pool} → Reach outside start p → Step outside p q → Reach outside start q

-- A worker that waits for a task that has not ended.
abbrev pub IsStuck : List ℕ → Doing → Type 0
IsStuck ended idle = ⊥
IsStuck ended (performs t) = ⊥
IsStuck ended (awaits t k) = has_ended k ended ≡ false

All-get_elem? :
    (P : Doing → Type 0) (ws : List Doing) (n : ℕ) (w : Doing)
    → All P ws
    → get_elem? ws n ≡ some w
    → P w
All-get_elem? P [] n w h e = cc
All-get_elem? P (v ∷ ws) zero w h e = subst P (cc) h.0
All-get_elem? P (v ∷ ws) (suc n) w h e = All-get_elem? P ws n w h.1 e

-- Nothing but the queues changes.
abbrev Same : Pool → Pool → Type 0
Same p q = (q.workers ≡ p.workers) × (q.ended ≡ p.ended)

Step-Same : (p q : Pool) → All (IsStuck p.ended) p.workers → Step false p q → Same p q
Step-Same p q h (takes free n t ts e o f g) =
    absurd (All-get_elem? (IsStuck p.ended) p.workers n idle h e)
Step-Same p q h (sends on free acquired rounds t id accepted ts f g) =
    (ap (λ r. r.workers) g, ap (λ r. r.ended) g)
Step-Same p q h (stops g) = (ap (λ r. r.workers) g, ap (λ r. r.ended) g)
Step-Same p q h (starts handle o f g) = cc
Step-Same p q h (waits_outside handle o g) = cc
Step-Same p q h (runs_outside free id t ts o f g) = cc
Step-Same p q h (waits n t k e g) =
    absurd (All-get_elem? (IsStuck p.ended) p.workers n (performs t) h e)
Step-Same p q h (passes n t k e f g) =
    let closed : has_ended k p.ended ≡ false =
      All-get_elem? (IsStuck p.ended) p.workers n (awaits t k) h e in
    cc
Step-Same p q h (ends n t e g) =
    absurd (All-get_elem? (IsStuck p.ended) p.workers n (performs t) h e)

Reach-Same :
    (start : Pool) {q : Pool}
    → All (IsStuck start.ended) start.workers
    → Reach false start q
    → Same start q
Reach-Same start h here = (refl, refl)
Reach-Same start h (next {p} {q} r s) =
    let (w, e) = Reach-Same start h r in
    let stuck : All (IsStuck p.ended) p.workers =
      subst (λ ws. All (IsStuck p.ended) ws) (sym w)
        (subst (λ ended. All (IsStuck ended) start.workers) (sym e) h) in
    let (v, f) = Step-Same p q stuck s in (v ∙ w, f ∙ e)

-- When the last worker that does not wait calls `wait_for` in a task, for a task that has not ended,
-- while some queue is empty, all workers wait for as long as no thread outside the pool calls `start` or
-- `wait_for` or runs a task: `wait_for_scope` adds a worker only if no queue is empty, so that nobody
-- in the pool is left to run the tasks that stand in the others, whatever tasks are still sent and
-- whether or not the scheduler is stopped.
pub nested_wait_hangs :
    (n t k : ℕ) (p : Pool) {q : Pool}
    → All (IsStuck p.ended) (become n (awaits t k) p.workers)
    → has_empty_queue p.scheduler ≡ true
    → Reach false (wait_for_task n t k p) q
    → (q.workers ≡ become n (awaits t k) p.workers) × (q.ended ≡ p.ended)
nested_wait_hangs n t k p {q} h e r =
    let same : (wait_for_task n t k p).workers ≡ become n (awaits t k) p.workers =
      unfold wait_for_task in rw e (append-nil (become n (awaits t k) p.workers)) in
    let ended : (wait_for_task n t k p).ended ≡ p.ended = unfold wait_for_task in refl in
    let (w, f) =
      Reach-Same (wait_for_task n t k p)
        (subst (λ ws. All (IsStuck (wait_for_task n t k p).ended) ws) (sym same)
          (subst (λ l. All (IsStuck l) (become n (awaits t k) p.workers)) (sym ended) h))
        r in
    (w ∙ same, f ∙ ended)
