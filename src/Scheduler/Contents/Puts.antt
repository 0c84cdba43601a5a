-- ===== src/Scheduler/Contents/Puts.antt =====
-- What `send_task` does to the tasks that stand in the queues.
use function_stream.Base.{
  ℕ, ◌≡◌, refl, ap, sym, subst, ◌∙◌, Bool, true, false, List, [], ◌∷◌, ◌++◌, get_elem?, modify,
  Option-cases, Outcome, returns, throws, faults, ◌>>=◌, some, none, All, inl, inr, Bool-cases,
  Permᴰ, Option, deref, not, if◌then◌else◌,
}
use mathlib.Core.List.Permᴰ
use function_stream.Queue.{
  ConcurrentQueue, PushBackResult, failed, success, try_push_back, Round, Spin, stopped, spinning,
  push_loop, spin_push_back,
}
use function_stream.Scheduler.{
  FixedTaskScheduler, started, Offer, placed, halted, refused, offer, last_resort, after_offer,
  around, send_to, send_task,
}
use function_stream.Scheduler.Contents.{contents, contents-push, contents-same, IsAlone}

module _ {T : Type 0} (tsk : T) where
  -- The task stands in a queue, with those that stood there before.
  abbrev PutsOf : List T → Outcome (Offer T) → Type 0
  PutsOf l (returns (placed qs)) = Permᴰ (contents qs) (tsk ∷ l)
  PutsOf l (returns halted) = ⊥
  PutsOf l (returns refused) = Unit
  PutsOf l throws = Unit
  PutsOf l faults = Unit

  -- A task that was accepted stands in a queue, one that was refused does not, and no other has left or
  -- come.
  abbrev pub Puts : List T → Outcome (Spin (Bool × FixedTaskScheduler T)) → Type 0
  Puts l (returns (stopped (true, ts))) = Permᴰ (contents ts.tasks) (tsk ∷ l)
  Puts l (returns (stopped (false, ts))) = Permᴰ (contents ts.tasks) l
  Puts l (returns spinning) = Unit
  Puts l throws = Unit
  Puts l faults = Unit

  module _ (on free : ℕ → Bool) (on_all : (m : ℕ) → on m ≡ true) where
    offer-PutsOf :
        (ms : List ℕ) (qs : List (ConcurrentQueue T))
        → PutsOf (contents qs) (offer on free tsk ms qs)
    unfolding offer try_push_back
    offer-PutsOf [] qs = tt
    offer-PutsOf (m ∷ ms) qs = rw (on_all m) (elim (Option-cases (get_elem? qs m)) [
      | inl past ↦ rw past tt
      | inr (q, e) ↦ elim (Bool-cases (free m)) [
        | inl here ↦ rw e (rw here (contents-push qs m tsk q e))
        | inr locked ↦ rw e (rw locked (offer-PutsOf ms qs))
      ]
    ])

    abbrev Pushed : List T → Spin (PushBackResult × ConcurrentQueue T) → Type 0
    Pushed l (stopped (success, q)) = q.items ≡ l ++ tsk ∷ []
    Pushed l (stopped (failed, q)) = q.items ≡ l
    Pushed l spinning = Unit

    try-Pushed :
        (acquired : Bool) (items : List T)
        → Pushed items (stopped (try_push_back acquired tsk (record { items = items })))
    unfolding try_push_back
    try-Pushed true items = refl
    try-Pushed false items = refl

    push_loop-Pushed :
        (rounds : List (Round T)) (l : List T) (r : PushBackResult × ConcurrentQueue T)
        → All IsAlone rounds
        → Pushed l (stopped r)
        → Pushed l (push_loop tsk rounds r)
    unfolding push_loop
    push_loop-Pushed [] l (success, q) a h = h
    push_loop-Pushed [] l (failed, q) a h = tt
    push_loop-Pushed (r ∷ rounds) l (success, q) a h = h
    push_loop-Pushed (r ∷ rounds) l (failed, q) a h = elim (Bool-cases r.continues) [
      | inl on ↦ rw on (
          push_loop-Pushed rounds l _ a.1 (
            subst
              (λ items.
                Pushed l (stopped (try_push_back r.acquired tsk (record { items = items }))))
              (sym (a.0 q.items ∙ h)) (try-Pushed r.acquired l)))
      | inr off ↦ rw off (a.0 q.items ∙ h)
    ]

    module _ (ts : FixedTaskScheduler T) (id : ℕ) (q : ConcurrentQueue T)
        (e : get_elem? ts.tasks id ≡ some q) where
      last-Puts :
          (o : Spin (PushBackResult × ConcurrentQueue T))
          → Pushed q.items o
          → Puts (contents ts.tasks) (returns (last_resort ts id o))
      last-Puts (stopped (success, q')) h =
          subst
            (λ items.
              Permᴰ (contents (modify ts.tasks id (λ _. record { items = items })))
                (tsk ∷ contents ts.tasks))
            (sym h) (contents-push ts.tasks id tsk q e)
      last-Puts (stopped (failed, q')) h =
          subst (λ qs. Permᴰ (contents qs) (contents ts.tasks))
            (sym (contents-same ts.tasks id q' (e ∙ ap (λ l. some (record { items = l })) (sym h))))
            (Permᴰ.refl (contents ts.tasks))
      last-Puts spinning h = tt

      module _ (acquired : Bool) (rounds : List (Round T)) (alone : All IsAlone rounds) where
        offered-Puts :
            (o : Outcome (Offer T))
            → PutsOf (contents ts.tasks) o
            → Puts
                (contents ts.tasks)
                (o >>= λ r. returns (after_offer ts id (spin_push_back tsk acquired rounds q) r))
        unfolding spin_push_back
        offered-Puts (returns (placed qs)) h = h
        offered-Puts (returns halted) h = absurd h
        offered-Puts (returns refused) h =
            last-Puts _ (push_loop-Pushed rounds q.items _ alone (try-Pushed acquired q.items))
        offered-Puts throws h = tt
        offered-Puts faults h = tt

        around-Puts :
            (ms : Option (List ℕ))
            → Puts (contents ts.tasks) (
                around ms (λ ms. offer on free tsk ms ts.tasks >>= λ o.
                returns (after_offer ts id (spin_push_back tsk acquired rounds q) o)))
        around-Puts none = tt
        around-Puts (some ms) = offered-Puts _ (offer-PutsOf ms ts.tasks)

        send_to-Puts : Puts (contents ts.tasks) (send_to on free acquired rounds tsk id ts q)
        unfolding try_push_back
        send_to-Puts = elim (Bool-cases (free id)) [
          | inl here ↦ rw here (contents-push ts.tasks id tsk q e)
          | inr locked ↦ rw locked (around-Puts _)
        ]

    -- `send_task` of a scheduler that stays started, where no other thread changes the queue that it
    -- spins on.
    pub send_task-Puts :
        (ts : FixedTaskScheduler T) (id : ℕ) (acquired : Bool) (rounds : List (Round T))
        → started ts ≡ true
        → All IsAlone rounds
        → Puts (contents ts.tasks) (send_task on free acquired rounds tsk id ts)
    unfolding send_task
    send_task-Puts ts id acquired rounds go a = while_started (started ts) _ go found
      where
        while_started :
            (b : Bool) (o : Outcome (Spin (Bool × FixedTaskScheduler T)))
            → b ≡ true
            → Puts (contents ts.tasks) o
            → Puts (contents ts.tasks) (if not b then returns (stopped (true, ts)) else o)
        while_started true o e h = h
        while_started false o e h = cc

        found :
            Puts
              (contents ts.tasks)
              (deref (get_elem? ts.tasks id) >>= send_to on free acquired rounds tsk id ts)
        found = elim (Option-cases (get_elem? ts.tasks id)) [
          | inl past ↦ rw past tt
          | inr (q, e) ↦ rw e (send_to-Puts ts id q e acquired rounds a)
        ]
