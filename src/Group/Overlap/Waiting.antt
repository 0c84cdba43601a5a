-- ===== src/Group/Overlap/Waiting.antt =====
-- What the waiter of a group whose tasks overlap finds.
use mathlib.Core.List.Permᴰ
use mathlib.Core.List.{map-append}
use function_stream.Base.{
  ◌+◌, ◌≡◌, refl, sym, ap, ◌∙◌, subst, Bool, true, false, List, [], ◌∷◌, ◌++◌, length, map,
  append-nil, append_assoc, length-eq-zero, arith, run, run-append, Permᴰ, if◌then◌else◌, All,
}
use function_stream.Latch.{can_pass}
use function_stream.Group.Overlap.{
  Begun, Overlapping, overlapping_group, Step, schedule, schedule_stopped, leave, takes,
  takes_stopped, acts, notifies, Reach, here, next,
}
use function_stream.Group.Overlap.Counting.{
  Interleaving, none_begun, begins, goes_on, pending, begun_tasks, pasts, map-middle, All-at,
  All-put, All-snoc, Fits, Reach-owed,
}

-- A task in front of others, moved behind some of these.
moves :
    {T : Type 0} (xs ys zs : List T) (t : T) {l r : List T}
    → (xs ++ (t ∷ (ys ++ zs))) ≡ l
    → (xs ++ (ys ++ (t ∷ zs))) ≡ r
    → Permᴰ l r
moves xs ys zs t {r = r} e f =
    subst (λ l. Permᴰ l r) e
      (subst (λ r. Permᴰ (xs ++ (t ∷ (ys ++ zs))) r) f
        (Permᴰ.append_left xs (Permᴰ.symm (Permᴰ.middle t ys zs))))

module _ {T A S : Type 0} (actions : T → List A) (perform : A → S → S) (stays : Bool) where
  -- All tasks of a group, wherever they stand.
  abbrev everything : Overlapping T A S → List T
  everything o = begun_tasks o.begun ++ o.dropped ++ o.queued ++ o.todo

  record Kept (tasks : List T) (s : S) (o : Overlapping T A S) : Type 0 where
    all : Permᴰ (everything o) tasks
    mixed : Interleaving (pasts o.begun) o.log
    left : o.memory ≡ run perform o.log s
    fit : All (Fits actions) o.begun

  schedule-everything :
      (xs dropped queued rest : List T) (t : T)
      → xs ++ dropped ++ (queued ++ t ∷ []) ++ rest ≡ xs ++ dropped ++ queued ++ t ∷ rest
  schedule-everything xs dropped queued rest t = simp append_assoc

  drops-everything :
      (xs dropped before after todo : List T) (t : T)
      → Permᴰ
          (xs ++ (t ∷ dropped) ++ (before ++ after) ++ todo)
          (xs ++ dropped ++ (before ++ t ∷ after) ++ todo)
  drops-everything xs dropped before after todo t =
      moves xs (dropped ++ before) (after ++ todo) t (simp append_assoc) (simp append_assoc)

  takes-everything :
      (xs dropped before after todo : List T) (t : T)
      → Permᴰ
          ((xs ++ t ∷ []) ++ dropped ++ (before ++ after) ++ todo)
          (xs ++ dropped ++ (before ++ t ∷ after) ++ todo)
  takes-everything xs dropped before after todo t =
      moves xs (dropped ++ before) (after ++ todo) t (simp append_assoc) (simp append_assoc)

  stopped-everything :
      (xs dropped queued rest : List T) (t : T)
      → Permᴰ (xs ++ (t ∷ dropped) ++ queued ++ rest) (xs ++ dropped ++ queued ++ t ∷ rest)
  stopped-everything xs dropped queued rest t =
      moves xs (dropped ++ queued) rest t (simp append_assoc) (simp append_assoc)

  -- A change of one begun task that a function does not see.
  same-map :
      {B : Type 0} (f : Begun T A → B) {bs : List (Begun T A)} (before after : List (Begun T A))
      (b c : Begun T A)
      → bs ≡ before ++ b ∷ after
      → f c ≡ f b
      → map f bs ≡ map f (before ++ c ∷ after)
  same-map f before after b c e g =
      ap (map f) e
      ∙ map-middle f before after b
      ∙ ap (λ x. map f before ++ x ∷ map f after) (sym g)
      ∙ sym (map-middle f before after c)

  tasks-all :
      {tasks : List T} (o : Overlapping T A S) (bs : List (Begun T A))
      → begun_tasks o.begun ≡ begun_tasks bs
      → Permᴰ (everything o) tasks
      → Permᴰ (everything (record o { begun = bs })) tasks
  tasks-all {tasks} o bs e = subst (λ l. Permᴰ (l ++ o.dropped ++ o.queued ++ o.todo) tasks) e

  Step-Kept :
      {tasks : List T} {s : S} {o p : Overlapping T A S}
      → Step actions perform stays o p
      → Kept tasks s o
      → Kept tasks s p
  Step-Kept {tasks} {o = o} (schedule t rest e q) k = rw q (record {
    all =
        subst (λ l. Permᴰ l tasks)
          (ap (λ l. begun_tasks o.begun ++ o.dropped ++ o.queued ++ l) e
            ∙ sym (schedule-everything (begun_tasks o.begun) o.dropped o.queued rest t))
          k.all;
    mixed = k.mixed;
    left = k.left;
    fit = k.fit;
  })
  Step-Kept {tasks} {o = o} (schedule_stopped t rest f e q) k = rw q (record {
    all =
        Permᴰ.trans (stopped-everything (begun_tasks o.begun) o.dropped o.queued rest t)
          (subst (λ l. Permᴰ (begun_tasks o.begun ++ o.dropped ++ o.queued ++ l) tasks) e k.all);
    mixed = k.mixed;
    left = k.left;
    fit = k.fit;
  })
  Step-Kept (leave s e f n q) k =
      rw q (record { all = k.all; mixed = k.mixed; left = k.left; fit = k.fit })
  Step-Kept {tasks} {o = o} (takes before after t e q) k = rw q (record {
    all =
        subst (λ l. Permᴰ (l ++ o.dropped ++ (before ++ after) ++ o.todo) tasks)
          (sym (map-append (λ b. b.task) o.begun _))
          (Permᴰ.trans (takes-everything (begun_tasks o.begun) o.dropped before after o.todo t)
            (subst (λ l. Permᴰ (begun_tasks o.begun ++ o.dropped ++ l ++ o.todo) tasks) e k.all));
    mixed =
        subst (λ l. Interleaving l o.log) (sym (map-append (λ b. b.past) o.begun _))
          (begins k.mixed);
    left = k.left;
    fit = All-snoc (Fits actions) o.begun _ k.fit (record { whole = refl; at_end = λ f. cc });
  })
  Step-Kept {tasks} {o = o} (takes_stopped before after t f e q) k = rw q (record {
    all =
        Permᴰ.trans (drops-everything (begun_tasks o.begun) o.dropped before after o.todo t)
          (subst (λ l. Permᴰ (begun_tasks o.begun ++ o.dropped ++ l ++ o.todo) tasks) e k.all);
    mixed = k.mixed;
    left = k.left;
    fit = k.fit;
  })
  Step-Kept {tasks} {s} {o} (acts before after b a rest e f q) k = rw q (record {
    all = tasks-all o _ (same-map (λ b. b.task) before after b c e refl) k.all;
    mixed =
        subst (λ l. Interleaving l (o.log ++ a ∷ []))
          (sym (map-middle (λ b. b.past) before after c))
          (goes_on (pasts before) (pasts after) b.past a (
            subst (λ l. Interleaving l o.log) (ap pasts e ∙ map-middle (λ b. b.past) before after b)
              k.mixed));
    left = ap (perform a) k.left ∙ sym (run-append perform o.log (a ∷ []) s);
    fit = All-put (Fits actions) before after b c fits (record {
      whole = append_assoc b.past (a ∷ []) rest ∙ ap (◌++◌ b.past) (sym f) ∙ old.whole;
      at_end = λ n. let none_left : b.rest ≡ [] = old.at_end n in absurd (cc);
    });
  })
    where
      c : Begun T A
      c = record b { past = b.past ++ a ∷ []; rest = rest }

      fits : All (Fits actions) (before ++ b ∷ after)
      fits = subst (All (Fits actions)) e k.fit

      old : Fits actions b
      old = All-at (Fits actions) before after b fits
  Step-Kept {tasks} {o = o} (notifies before after b s e f w n q) k = rw q (record {
    all = tasks-all o _ (same-map (λ b. b.task) before after b c e refl) k.all;
    mixed =
        subst (λ l. Interleaving l o.log) (same-map (λ b. b.past) before after b c e refl) k.mixed;
    left = k.left;
    fit =
        All-put (Fits actions) before after b c fits
          (record { whole = (All-at (Fits actions) before after b fits).whole; at_end = λ n. f });
  })
    where
      c : Begun T A
      c = record b { notified = true }

      fits : All (Fits actions) (before ++ b ∷ after)
      fits = subst (All (Fits actions)) e k.fit

  Reach-Kept :
      {tasks : List T} {s : S} {o p : Overlapping T A S}
      → Kept tasks s o
      → Reach actions perform stays o p
      → Kept tasks s p
  Reach-Kept k here = k
  Reach-Kept k (next r st) = Step-Kept st (Reach-Kept k r)

  Kept-start : (tasks : List T) (s : S) → Kept tasks s (overlapping_group tasks s)
  Kept-start tasks s = record { all = Permᴰ.refl tasks; mixed = none_begun; left = refl; fit = tt }

  -- The scope guard is spent only when the loop is over.
  Step-closed :
      {o p : Overlapping T A S}
      → Step actions perform stays o p
      → (o.scoped ≡ false → o.todo ≡ [])
      → p.scoped ≡ false
      → p.todo ≡ []
  Step-closed (schedule t rest e q) c = rw q (λ f. cc (c f))
  Step-closed (schedule_stopped t rest g e q) c = rw q (λ f. cc (c f))
  Step-closed (leave s e f n q) c = rw q (λ _. e)
  Step-closed (takes before after t e q) c = rw q c
  Step-closed (takes_stopped before after t f e q) c = rw q c
  Step-closed (acts before after b a rest e f q) c = rw q c
  Step-closed (notifies before after b s e f w n q) c = rw q c

  Reach-closed :
      {tasks : List T} {s : S} {o : Overlapping T A S}
      → Reach actions perform stays (overlapping_group tasks s) o
      → o.scoped ≡ false
      → o.todo ≡ []
  Reach-closed here f = cc
  Reach-closed (next r st) f = Step-closed st (Reach-closed r) f

  -- When no task is pending, each has done all that it had to do.
  pasts-actions :
      (bs : List (Begun T A))
      → pending bs ≡ 0
      → All (Fits actions) bs
      → pasts bs ≡ map actions (begun_tasks bs)
  pasts-actions [] z h = refl
  pasts-actions (b ∷ bs) z h = cc (pasts-actions bs (omega arith) h.1, this)
    where
      ended : b.notified ≡ true
      ended = ground arith

      this : b.past ≡ actions b.task
      this = sym (append-nil b.past) ∙ ap (◌++◌ b.past) (sym (h.0.at_end ended)) ∙ h.0.whole

  -- Whenever a waiter passes the semaphore of a scoped group, whatever steps of its tasks went on
  -- between those of others, and whether or not the scheduler was stopped: no task is left to be
  -- scheduled or in a queue, none was dropped, the tasks that were taken are those of the group in some
  -- order, all have done all that they had to do, and memory is what their steps leave in some
  -- interleaving, in which each task's stand in their order.
  pub wait_finds-Interleaving :
      {tasks : List T} {s : S} {o : Overlapping T A S}
      → Reach actions perform stays (overlapping_group tasks s) o
      → can_pass o.sem ≡ true
      → (o.todo ≡ [])
        × (o.queued ≡ [])
        × (o.dropped ≡ [])
        × Permᴰ (begun_tasks o.begun) tasks
        × Interleaving (map actions (begun_tasks o.begun)) o.log
        × (o.memory ≡ run perform o.log s)
  unfolding can_pass
  wait_finds-Interleaving {tasks} {s} {o} r p = (no_todo, no_queued, no_dropped, all, mixed, k.left)
    where
      counted :
          o.sem.value
          ≡ pending o.begun + length o.queued + length o.dropped + (if o.scoped then 1 else 0)
      counted = Reach-owed actions perform stays refl r

      k : Kept tasks s o
      k = Reach-Kept (Kept-start tasks s) r

      no_queued : o.queued ≡ []
      no_queued = length-eq-zero o.queued (ground (arith, counted))

      no_dropped : o.dropped ≡ []
      no_dropped = length-eq-zero o.dropped (ground (arith, counted))

      no_todo : o.todo ≡ []
      no_todo = Reach-closed r (ground (arith, counted))

      all : Permᴰ (begun_tasks o.begun) tasks
      all = subst (λ l. Permᴰ l tasks) (rw (no_dropped, no_queued, no_todo) (simp append-nil)) k.all

      mixed : Interleaving (map actions (begun_tasks o.begun)) o.log
      mixed =
          subst (λ l. Interleaving l o.log) (pasts-actions o.begun (ground (arith, counted)) k.fit)
            k.mixed
