-- ===== src/Scheduler/Contents.antt =====
-- What the calls of `fixed_task_scheduler` do to the tasks that stand in its queues, wherever these
-- stand.
pub mod Puts
pub mod Bag
pub mod Runs
use function_stream.Base.{
  ℕ, zero, suc, ◌+◌, ◌%◌, ◌≡◌, refl, ap, sym, subst, ◌∙◌, Bool, true, false, not, List, [], ◌∷◌,
  ◌++◌, length, get_elem?, modify, Option, none, some, Option-cases, Outcome, returns, throws,
  faults, ◌>>=◌, deref, arith, All, inl, inr, Bool-cases, append_assoc, Permᴰ, if◌then◌else◌,
}
use mathlib.Core.List.Permᴰ
use function_stream.Queue.{
  ConcurrentQueue, PushBackResult, failed, success, try_push_back, try_pop_front, Round, Spin,
  stopped, spinning, push_loop, spin_push_back, pop_loop, spin_pop_front,
}
use function_stream.Scheduler.{
  FixedTaskScheduler, started, size, sweep, stop_or, with_queues, steal_order, run_next_task, Offer,
  placed, halted, refused, offer, last_resort, after_offer, around, send_to, send_task, ring,
  own_result, found_or_own, wait_for_task_from_pool,
}

module _ {T : Type 0} where
  abbrev pub contents : List (ConcurrentQueue T) → List T
  contents [] = []
  contents (q ∷ qs) = q.items ++ contents qs

  contents-push :
      (qs : List (ConcurrentQueue T)) (n : ℕ) (tsk : T) (q : ConcurrentQueue T)
      → get_elem? qs n ≡ some q
      → Permᴰ
          (contents (modify qs n (λ _. record { items = q.items ++ tsk ∷ [] })))
          (tsk ∷ contents qs)
  contents-push [] n tsk q e = cc
  contents-push (p ∷ qs) zero tsk q e =
      subst
        (λ (p : ConcurrentQueue T).
          Permᴰ ((q.items ++ tsk ∷ []) ++ contents qs) (tsk ∷ p.items ++ contents qs))
        (cc)
        (subst (λ l. Permᴰ l (tsk ∷ q.items ++ contents qs))
          (sym (append_assoc q.items (tsk ∷ []) (contents qs)))
          (Permᴰ.middle tsk q.items (contents qs)))
  contents-push (p ∷ qs) (suc n) tsk q e =
      Permᴰ.trans (Permᴰ.append_left p.items (contents-push qs n tsk q e))
        (Permᴰ.middle tsk p.items (contents qs))

  contents-pop :
      (qs : List (ConcurrentQueue T)) (n : ℕ) (t : T) (rest : List T)
      → get_elem? qs n ≡ some (record { items = t ∷ rest })
      → Permᴰ (contents qs) (t ∷ contents (modify qs n (λ _. record { items = rest })))
  contents-pop [] n t rest e = cc
  contents-pop (p ∷ qs) zero t rest e =
      subst (λ (p : ConcurrentQueue T). Permᴰ (p.items ++ contents qs) (t ∷ rest ++ contents qs))
        {x = record { items = t ∷ rest }} (cc) (Permᴰ.refl (t ∷ rest ++ contents qs))
  contents-pop (p ∷ qs) (suc n) t rest e =
      Permᴰ.trans (Permᴰ.append_left p.items (contents-pop qs n t rest e))
        (Permᴰ.middle t p.items _)

  contents-same :
      (qs : List (ConcurrentQueue T)) (n : ℕ) (q : ConcurrentQueue T)
      → get_elem? qs n ≡ some q
      → modify qs n (λ _. q) ≡ qs
  contents-same [] n q e = refl
  contents-same (p ∷ qs) zero q e = cc
  contents-same (p ∷ qs) (suc n) q e = ap (◌∷◌ p) (contents-same qs n q e)

  -- A task that was found has left the tasks that stand in the queues, and no other has.
  abbrev pub Took : List T → Outcome (Option T × FixedTaskScheduler T) → Type 0
  Took l (returns (some t, s)) = Permᴰ l (t ∷ contents s.tasks)
  Took l (returns (none, s)) = Permᴰ l (contents s.tasks)
  Took l throws = Unit
  Took l faults = Unit

  abbrev TookOf : List T → Outcome (Option T × List (ConcurrentQueue T)) → Type 0
  TookOf l (returns (some t, qs)) = Permᴰ l (t ∷ contents qs)
  TookOf l (returns (none, qs)) = Permᴰ l (contents qs)
  TookOf l throws = Unit
  TookOf l faults = Unit

  attempt :
      (b : Bool) (n : ℕ) (qs : List (ConcurrentQueue T)) (items : List T)
      (rest : Outcome (Option T × List (ConcurrentQueue T)))
      → get_elem? qs n ≡ some (record { items = items })
      → TookOf (contents qs) rest
      → TookOf (contents qs) (stop_or (try_pop_front b (record { items = items })) n qs rest)
  unfolding try_pop_front
  attempt true n qs (t ∷ items) rest e h = contents-pop qs n t items e
  attempt true n qs [] rest e h = h
  attempt false n qs items rest e h = h

  sweep-TookOf :
      (free : ℕ → Bool) (ns : List ℕ) (qs : List (ConcurrentQueue T))
      → TookOf (contents qs) (sweep free ns qs)
  unfolding sweep
  sweep-TookOf free [] qs = Permᴰ.refl (contents qs)
  sweep-TookOf free (n ∷ ns) qs = elim (Option-cases (get_elem? qs n)) [
    | inl past ↦ rw past tt
    | inr (q, e) ↦
        rw e (attempt (free n) n qs q.items (sweep free ns qs) e (sweep-TookOf free ns qs))
  ]

  -- `run_next_task` takes at most one task, and loses none.
  pub run_next_task-Took :
      (free : ℕ → Bool) (id : ℕ) (ts : FixedTaskScheduler T)
      → Took (contents ts.tasks) (run_next_task free id ts)
  unfolding run_next_task
  run_next_task-Took free id ts = queues _ (sweep-TookOf free (steal_order id (size ts)) ts.tasks)
    where
      queues :
          (o : Outcome (Option T × List (ConcurrentQueue T)))
          → TookOf (contents ts.tasks) o
          → Took (contents ts.tasks) (o >>= with_queues ts)
      queues (returns (some t, qs)) h = h
      queues (returns (none, qs)) h = h
      queues throws h = tt
      queues faults h = tt

  -- No other thread changes the queue between the attempts of a spinning loop.
  abbrev pub IsAlone : Round T → Type 0
  IsAlone r = (l : List T) → r.others l ≡ l

  abbrev Popped : List T → Spin (Option T × ConcurrentQueue T) → Type 0
  Popped l (stopped (some t, q)) = l ≡ t ∷ q.items
  Popped l (stopped (none, q)) = q.items ≡ l
  Popped l spinning = Unit

  try-Popped :
      (acquired : Bool) (items : List T)
      → Popped items (stopped (try_pop_front acquired (record { items = items })))
  unfolding try_pop_front
  try-Popped true [] = refl
  try-Popped true (t ∷ items) = refl
  try-Popped false items = refl

  pop_loop-Popped :
      (rounds : List (Round T)) (l : List T) (r : Option T × ConcurrentQueue T)
      → All IsAlone rounds
      → Popped l (stopped r)
      → Popped l (pop_loop rounds r)
  unfolding pop_loop
  pop_loop-Popped [] l (some t, q) a h = h
  pop_loop-Popped [] l (none, q) a h = tt
  pop_loop-Popped (r ∷ rounds) l (some t, q) a h = h
  pop_loop-Popped (r ∷ rounds) l (none, q) a h = elim (Bool-cases r.continues) [
    | inl on ↦ rw on (
        pop_loop-Popped rounds l _ a.1 (
          subst (λ items. Popped l (stopped (try_pop_front r.acquired (record { items = items }))))
            (sym (a.0 q.items ∙ h)) (try-Popped r.acquired l)))
    | inr off ↦ rw off (a.0 q.items ∙ h)
  ]

  abbrev Pooled : List T → Outcome (Spin (Option T × FixedTaskScheduler T)) → Type 0
  Pooled l (returns (stopped r)) = Took l (returns r)
  Pooled l (returns spinning) = Unit
  Pooled l throws = Unit
  Pooled l faults = Unit

  own-Pooled :
      (id : ℕ) (ts : FixedTaskScheduler T) (q : ConcurrentQueue T)
      (o : Spin (Option T × ConcurrentQueue T))
      → get_elem? ts.tasks id ≡ some q
      → Popped q.items o
      → Pooled (contents ts.tasks) (returns (own_result id ts o))
  own-Pooled id ts q (stopped (some t, q')) e h =
      contents-pop ts.tasks id t q'.items (e ∙ ap (λ l. some (record { items = l })) h)
  own-Pooled id ts q (stopped (none, q')) e h =
      subst (λ qs. Permᴰ (contents ts.tasks) (contents qs))
        (sym (contents-same ts.tasks id q' (e ∙ ap (λ l. some (record { items = l })) (sym h))))
        (Permᴰ.refl (contents ts.tasks))
  own-Pooled id ts q spinning e h = tt

  Pooled-trans :
      (l l' : List T) (o : Outcome (Spin (Option T × FixedTaskScheduler T)))
      → Permᴰ l l'
      → Pooled l' o
      → Pooled l o
  Pooled-trans l l' (returns (stopped (some t, s))) p h = Permᴰ.trans p h
  Pooled-trans l l' (returns (stopped (none, s))) p h = Permᴰ.trans p h
  Pooled-trans l l' (returns spinning) p h = tt
  Pooled-trans l l' throws p h = tt
  Pooled-trans l l' faults p h = tt

  found-Pooled :
      (ts : FixedTaskScheduler T) (acquired : Bool) (rounds : List (Round T)) (id : ℕ)
      (o : Outcome (Option T × List (ConcurrentQueue T)))
      → All IsAlone rounds
      → TookOf (contents ts.tasks) o
      → Pooled
          (contents ts.tasks)
          (o >>= λ (found, qs). found_or_own acquired rounds id (record ts { tasks = qs }) found)
  found-Pooled ts acquired rounds id (returns (some t, qs)) a h = h
  found-Pooled ts acquired rounds id (returns (none, qs)) a h =
      Pooled-trans (contents ts.tasks) (contents qs) _ h own
    where
      own : Pooled (contents qs) (found_or_own acquired rounds id (record ts { tasks = qs }) none)
      own = elim (Option-cases (get_elem? qs id)) [
        | inl past ↦ rw past tt
        | inr (q, e) ↦ rw e (
            unfold spin_pop_front in
            own-Pooled id (record ts { tasks = qs }) q _ e
              (pop_loop-Popped rounds q.items _ a (try-Popped acquired q.items)))
      ]
  found-Pooled ts acquired rounds id throws a h = tt
  found-Pooled ts acquired rounds id faults a h = tt

  -- Neither does `wait_for_task_from_pool`, where no other thread changes the queue that it spins on.
  pub wait_for_task_from_pool-Pooled :
      (free : ℕ → Bool) (acquired : Bool) (rounds : List (Round T)) (id : ℕ)
      (ts : FixedTaskScheduler T)
      → All IsAlone rounds
      → Pooled (contents ts.tasks) (wait_for_task_from_pool free acquired rounds id ts)
  unfolding wait_for_task_from_pool
  wait_for_task_from_pool-Pooled free acquired rounds id ts a =
      either (started ts) _ (found-Pooled ts acquired rounds id _ a (sweep-TookOf free _ ts.tasks))
    where
      either :
          (on : Bool) (o : Outcome (Spin (Option T × FixedTaskScheduler T)))
          → Pooled (contents ts.tasks) o
          → Pooled (contents ts.tasks) (if not on then returns (stopped (none, ts)) else o)
      either true o h = h
      either false o h = Permᴰ.refl (contents ts.tasks)
