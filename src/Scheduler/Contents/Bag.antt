-- ===== src/Scheduler/Contents/Bag.antt =====
-- The scheduler as a bag of tasks: which queue a task stands in, and where in it, is forgotten.
use function_stream.Base.{
  ℕ, zero, suc, ◌+◌, ◌≡◌, refl, ap, sym, subst, ◌∙◌, Bool, true, false, List, [], ◌∷◌, Option, none,
  some, returns, All, Permᴰ, if◌then◌else◌,
}
use mathlib.Core.Quot
use mathlib.Core.Quot.{Quot, Quot-set}
use function_stream.Queue.{Round, stopped}
use function_stream.Scheduler.{
  FixedTaskScheduler, started, run_next_task, send_task, wait_for_task_from_pool, start, start_loop,
  add_queue, stop,
}
use function_stream.Scheduler.Contents.{
  contents, IsAlone, Took, run_next_task-Took, Pooled, wait_for_task_from_pool-Pooled,
}
use function_stream.Scheduler.Contents.Puts.{Puts, send_task-Puts}

abbrev pub Bag : Type 0 → Type 0
Bag T = Quot (Permᴰ {A = T})

module _ {T : Type 0} where
  unfoldable pub put : T → Bag T → Bag T
  put x = Quot.lift Quot-set (λ l. Quot.mk (x ∷ l)) (λ l m p. Quot.sound (Permᴰ.cons refl p))

  put_comm : (x y : T) (b : Bag T) → put x (put y b) ≡ put y (put x b)
  unfolding put
  put_comm x y = Quot.ind (λ b. Quot-set _ _) (λ l. Quot.sound (Permᴰ.swap refl refl))

  abbrev pub put_all : List T → Bag T → Bag T
  put_all [] b = b
  put_all (x ∷ xs) b = put x (put_all xs b)

  put_all-put : (xs : List T) (x : T) (b : Bag T) → put_all xs (put x b) ≡ put x (put_all xs b)
  put_all-put [] x b = refl
  put_all-put (y ∷ xs) x b = ap (put y) (put_all-put xs x b) ∙ put_comm y x (put_all xs b)

  -- The abstract state of a scheduler.
  unfoldable pub bag : FixedTaskScheduler T → Bag T
  bag ts = Quot.mk (contents ts.tasks)

  abbrev pub note_sent : Bool → T → List T → List T
  note_sent accepted tsk sent = if accepted then tsk ∷ sent else sent

  abbrev pub note_taken : Option T → List T → List T
  note_taken none taken = taken
  note_taken (some t) taken = t ∷ taken

  -- What calls lead to, one after the other, with the tasks for which `send_task` returned true, those
  -- of them that it dropped, and those that were taken out. No other thread changes the queue that a
  -- call spins on. A call of `send_task` that finds the scheduler stopped when it begins, or in its loop
  -- over the other queues, returns true and drops its task: that is `drops`.
  pub data Reach (initial : FixedTaskScheduler T)
      : List T → List T → List T → FixedTaskScheduler T → Type 0 where
    here : Reach initial [] [] [] initial
    sends :
        {sent dropped taken : List T} {s t : FixedTaskScheduler T} (on free : ℕ → Bool)
        (acquired : Bool) (rounds : List (Round T)) (tsk : T) (id : ℕ) (accepted : Bool)
        → Reach initial sent dropped taken s
        → started s ≡ true
        → ((m : ℕ) → on m ≡ true)
        → All IsAlone rounds
        → send_task on free acquired rounds tsk id s ≡ returns (stopped (accepted, t))
        → Reach initial (note_sent accepted tsk sent) dropped taken t
    drops :
        {sent dropped taken : List T} {s : FixedTaskScheduler T} (on free : ℕ → Bool)
        (acquired : Bool) (rounds : List (Round T)) (tsk : T) (id : ℕ)
        → Reach initial sent dropped taken s
        → send_task on free acquired rounds tsk id s ≡ returns (stopped (true, s))
        → Reach initial (tsk ∷ sent) (tsk ∷ dropped) taken s
    runs_next :
        {sent dropped taken : List T} {s t : FixedTaskScheduler T} (free : ℕ → Bool) (id : ℕ)
        (found : Option T)
        → Reach initial sent dropped taken s
        → run_next_task free id s ≡ returns (found, t)
        → Reach initial sent dropped (note_taken found taken) t
    waits :
        {sent dropped taken : List T} {s t : FixedTaskScheduler T} (free : ℕ → Bool)
        (acquired : Bool) (rounds : List (Round T)) (id : ℕ) (found : Option T)
        → Reach initial sent dropped taken s
        → All IsAlone rounds
        → wait_for_task_from_pool free acquired rounds id s ≡ returns (stopped (found, t))
        → Reach initial sent dropped (note_taken found taken) t
    starts :
        {sent dropped taken : List T} {s : FixedTaskScheduler T} (handle : Bool)
        → Reach initial sent dropped taken s
        → Reach initial sent dropped taken (start handle s)
    stops :
        {sent dropped taken : List T} {s : FixedTaskScheduler T}
        → Reach initial sent dropped taken s
        → Reach initial sent dropped taken (stop s)

  start_loop-tasks :
      (n m : ℕ) (handle : Bool) (ts : FixedTaskScheduler T)
      → (start_loop n m handle ts).tasks ≡ ts.tasks
  unfolding start_loop add_queue
  start_loop-tasks n zero handle ts = refl
  start_loop-tasks n (suc m) handle ts = start_loop-tasks (n + 1) m false (add_queue n handle ts)

  start-bag : (handle : Bool) (ts : FixedTaskScheduler T) → bag (start handle ts) ≡ bag ts
  unfolding bag start
  start-bag handle ts = ap (λ qs. Quot.mk (contents qs)) (if-tasks (started ts))
    where
      if-tasks :
          (on : Bool)
          → (if on
              then ts
              else start_loop 0 ts.num_threads handle (record ts { continue = true })).tasks
            ≡ ts.tasks
      if-tasks true = refl
      if-tasks false = start_loop-tasks 0 ts.num_threads handle (record ts { continue = true })

  -- The calls on the bag.
  found-bag :
      (s t : FixedTaskScheduler T) (found : Option T) (taken : List T)
      → Took (contents s.tasks) (returns (found, t))
      → put_all taken (bag s) ≡ put_all (note_taken found taken) (bag t)
  unfolding bag put
  found-bag s t none taken p = ap (put_all taken) (Quot.sound p)
  found-bag s t (some x) taken p =
      ap (put_all taken) (Quot.sound p) ∙ put_all-put taken x (Quot.mk (contents t.tasks))

  put_all_comm :
      (dropped taken : List T) (x : T) (b : Bag T)
      → put_all dropped (put_all taken (put x b)) ≡ put x (put_all dropped (put_all taken b))
  put_all_comm dropped taken x b =
      ap (put_all dropped) (put_all-put taken x b) ∙ put_all-put dropped x (put_all taken b)

  sent-bag :
      (s t : FixedTaskScheduler T) (tsk : T) (accepted : Bool) (sent dropped taken : List T)
      (b : Bag T)
      → Puts tsk (contents s.tasks) (returns (stopped (accepted, t)))
      → put_all sent b ≡ put_all dropped (put_all taken (bag s))
      → put_all (note_sent accepted tsk sent) b ≡ put_all dropped (put_all taken (bag t))
  unfolding bag put
  sent-bag s t tsk false sent dropped taken b p e =
      e ∙ ap (λ c. put_all dropped (put_all taken c)) (sym (Quot.sound p))
  sent-bag s t tsk true sent dropped taken b p e =
      ap (put tsk) e
      ∙ sym (put_all_comm dropped taken tsk (Quot.mk (contents s.tasks)))
      ∙ ap (λ c. put_all dropped (put_all taken c)) (sym (Quot.sound p))

  -- The scheduler is a bag of tasks. Whatever calls of `send_task`, `run_next_task`,
  -- `wait_for_task_from_pool` without a semaphore, `start` and `stop` are made on it, no call changing a
  -- queue that another spins on: the tasks that stood in it and those for which `send_task` returned
  -- true are, each as often, those that `send_task` dropped because it found the scheduler stopped,
  -- those that were taken out and those that still stand in it. No other is lost, and none is given out
  -- twice.
  pub Reach-bag :
      {initial : FixedTaskScheduler T} {sent dropped taken : List T} {ts : FixedTaskScheduler T}
      → Reach initial sent dropped taken ts
      → put_all sent (bag initial) ≡ put_all dropped (put_all taken (bag ts))
  Reach-bag here = refl
  Reach-bag
        (sends {sent} {dropped} {taken} {s} {t} on free acquired rounds tsk id accepted r go all a
          e) =
      sent-bag s t tsk accepted sent dropped taken _
        (subst (Puts tsk (contents s.tasks)) e
          (send_task-Puts tsk on free all s id acquired rounds go a))
        (Reach-bag r)
  Reach-bag (drops on free acquired rounds tsk id r e) = ap (put tsk) (Reach-bag r)
  Reach-bag (runs_next {sent} {dropped} {taken} {s} {t} free id found r e) =
      Reach-bag r
      ∙ ap (put_all dropped) (
          found-bag s t found taken
            (subst (Took (contents s.tasks)) e (run_next_task-Took free id s)))
  Reach-bag (waits {sent} {dropped} {taken} {s} {t} free acquired rounds id found r a e) =
      Reach-bag r
      ∙ ap (put_all dropped) (
          found-bag s t found taken (
            subst (Pooled (contents s.tasks)) e
              (wait_for_task_from_pool-Pooled free acquired rounds id s a)))
  Reach-bag (starts {sent} {dropped} {taken} {s} handle r) =
      Reach-bag r ∙ ap (λ b. put_all dropped (put_all taken b)) (sym (start-bag handle s))
  Reach-bag (stops {sent} {dropped} {taken} {s} r) =
      Reach-bag r ∙ ap (λ b. put_all dropped (put_all taken b)) (unfold bag stop in refl)
