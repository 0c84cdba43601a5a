-- ===== src/Thread/Ending.antt =====
-- include/daw/fs/impl/ithread.h: how the life of a `fixed_ithread` ends, in its destructor and in
-- `fixed_task_scheduler::stop` of src/task_scheduler.cpp.
use function_stream.Base.{
  ◌≡◌, refl, subst, Bool-cases, ◌⊎◌, inl, inr, true, false, List, [], ◌∷◌, ◌++◌, some, returns, All,
  arith,
}
use function_stream.Latch.{can_pass, notify, fixed_cnt_sem}
use function_stream.Thread.{
  FixedIthread, Action, stop, wait, join, detach, join_if_joinable, release, running, waking, ended,
  Phase, act, advance, destructor, stop_calls, Owned, started_with, Step, owner, worker, Reach,
  here, next, InterruptTokenOwner, fixed_ithread,
}

-- With what `stop( false )` calls, and whatever the token, there is an interleaving from the start of
-- the thread after which the memory of its `fixed_ithread` is given back while the thread is still in
-- the middle of `notify`, about to wake the waiters on it.
pub stop-frees_early :
    (c : InterruptTokenOwner)
    → (h : Owned) × Reach
        (record { todo = stop_calls false; thread = record fixed_ithread { continue = c } })
        h
      × (h.thread.freed ≡ true)
      × (h.thread.phase ≡ waking)
unfolding act advance notify can_pass
stop-frees_early c = (
  _,
  next
      (next
        (next
          (next
            (next
              (next (next here (owner detach _ _ refl refl refl)) (owner stop _ _ refl refl refl))
              (worker _ refl refl))
            (owner stop _ _ refl refl refl))
          (owner wait _ _ refl refl refl))
        (owner join_if_joinable _ _ refl refl refl))
      (owner release _ _ refl refl refl),
  refl,
  refl,
)

Reach-trans : {f g h : Owned} → Reach f g → Reach g h → Reach f h
Reach-trans r here = r
Reach-trans r (next q st) = next (Reach-trans r q) st

-- Actions that an ended thread never holds up.
abbrev pub IsPatient : Action → Type 0
IsPatient a = (a ≡ stop) ⊎ ((a ≡ wait) ⊎ ((a ≡ join_if_joinable) ⊎ (a ≡ release)))

-- What is left to do is patient, and the count is what the thread has yet to notify.
record Patient (g : Owned) : Type 0 where
  pub todo : All IsPatient g.todo
  pub counted : g.thread.sem.value ≡ (elim g.thread.phase [ running ↦ 1 | _ ↦ 0 ])

act-counted :
    (a : Action) (t u : FixedIthread)
    → act a t ≡ some (returns u)
    → (u.sem ≡ t.sem) × (u.phase ≡ t.phase)
unfolding act
act-counted stop t u e = ground arith
act-counted wait t u e = ground arith
act-counted join t u e = ground arith
act-counted detach t u e = ground arith
act-counted join_if_joinable t u e = ground arith
act-counted release t u e = ground arith

Step-Patient : {g h : Owned} → Patient g → Step g h → Patient h
unfolding advance notify
Step-Patient {g} p (owner a rest t e f q) =
    let (same_sem, same_phase) = act-counted a g.thread t f in
    rw q (record {
      todo = (subst (All IsPatient) e p.todo).1;
      counted = ground (arith, p.counted, same_sem, same_phase);
    })
Step-Patient {g} p (worker t e q) =
    rw q (record { todo = p.todo; counted = ground (arith, p.counted) })

Reach-Patient :
    {actions : List Action} {g : Owned}
    → All IsPatient actions
    → Reach (started_with actions) g
    → Patient g
Reach-Patient m here = record { todo = m; counted = refl }
Reach-Patient m (next r st) = Step-Patient (Reach-Patient m r) st

patient_act :
    (a : Action) (t : FixedIthread)
    → IsPatient a
    → t.phase ≡ ended
    → t.sem.value ≡ 0
    → (u : FixedIthread) × (act a t ≡ some (returns u)) × (u.phase ≡ ended) × (u.sem.value ≡ 0)
unfolding act can_pass
patient_act stop t p e v = (_, refl, e, v)
patient_act wait t p e v = (t, ground arith, e, v)
patient_act join_if_joinable t p e v = elim (Bool-cases t.joinable) [
  | inl j ↦ (record t { joinable = false }, ground arith, e, v)
  | inr j ↦ (t, ground arith, e, v)
]
patient_act release t p e v = (_, refl, e, v)
patient_act join t p e v = absurd (ground arith)
patient_act detach t p e v = absurd (ground arith)

-- Once the thread has ended, its owner gets through the rest.
runs_out :
    (todo : List Action) (t : FixedIthread)
    → All IsPatient todo
    → t.phase ≡ ended
    → t.sem.value ≡ 0
    → (h : Owned) × Reach (record { todo = todo; thread = t }) h
      × (h.todo ≡ [])
      × (h.thread.phase ≡ ended)
runs_out [] t p e v = (_, here, refl, e)
runs_out (a ∷ rest) t p e v =
    let (u, f, e', v') = patient_act a t p.0 e v in
    let (h, r, d, k) = runs_out rest u p.1 e' v' in
    (h, Reach-trans (next here (owner a rest u refl f refl)) r, d, k)

thread_ends :
    (g : Owned) (phase : Phase)
    → g.thread.phase ≡ phase
    → Patient g
    → (t : FixedIthread) × Reach g (record g { thread = t }) × (t.phase ≡ ended) × (t.sem.value ≡ 0)
unfolding advance notify
thread_ends g running e p = (
  record g.thread { sem = fixed_cnt_sem 0; phase = ended },
  next
      (next here (
        worker (record g.thread { sem = fixed_cnt_sem 0; phase = waking })
          (ground (arith, p.counted)) refl))
      (worker _ refl refl),
  refl,
  refl,
)
thread_ends g waking e p = (
  record g.thread { phase = ended },
  next here (worker _ (ground arith) refl),
  refl,
  ground (arith, p.counted),
)
thread_ends g ended e p = (g.thread, here, e, ground (arith, p.counted))

All-IsPatient :
    (calls : List Action)
    → All (λ a. (a ≡ stop) ⊎ (a ≡ wait)) calls
    → All IsPatient (calls ++ destructor)
All-IsPatient [] m =
    (inl refl, (inr (inl refl), (inr (inr (inl refl)), (inr (inr (inr refl)), tt))))
All-IsPatient (a ∷ calls) m = (ground (arith, m.0), All-IsPatient calls m.1)

-- An owner that stops its thread and waits for it, any number of times, and then destroys it, is never
-- stuck: from whatever they have come to, the thread can end, and the destructor then returns.
pub destructor-returns :
    (calls : List Action) {g : Owned}
    → All (λ a. (a ≡ stop) ⊎ (a ≡ wait)) calls
    → Reach (started_with (calls ++ destructor)) g
    → (h : Owned) × Reach g h × (h.todo ≡ []) × (h.thread.phase ≡ ended)
destructor-returns calls {g} m r =
    let p = Reach-Patient (All-IsPatient calls m) r in
    let (t, r', e, v) = thread_ends g g.thread.phase refl p in
    let (h, r'', d, k) = runs_out g.todo t p.todo e v in (h, Reach-trans r' r'', d, k)
