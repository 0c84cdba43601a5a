-- ===== src/Group/Order.antt =====
-- What the waiter of a scoped group finds: every task has run, in some order.
use mathlib.Core.List.Permᴰ
use function_stream.Base.{
  ℕ, ◌+◌, ◌≡◌, refl, sym, ap, ◌∙◌, subst, true, false, List, [], ◌∷◌, ◌++◌, length, length-append,
  append-nil, append_assoc, length-eq-zero, arith, returns, run, run-append, run-perm, Permᴰ,
  if◌then◌else◌,
}
use function_stream.Latch.{FixedCntSem, add_notifier, notify, can_pass}
use function_stream.Group.{Group, scoped_group, Step, schedule, leave, execute, Reach, here, next}

-- One notification is owed for each queued task and for the scope guard.
abbrev pub owed {ℓ κ} : {T : Type ℓ} {S : Type κ} → Group T S → ℕ
owed g = length g.queued + (if g.scoped then 1 else 0)

pub notify-returns :
    (s : FixedCntSem) {s' : FixedCntSem} → notify s ≡ returns s' → s.value ≡ s'.value + 1
unfolding notify
notify-returns s e = ground arith

module _ {ℓ κ} {T : Type ℓ} {S : Type κ} (body : T → S → S) where
  -- The semaphore counts what is owed, beyond what it was preset to.
  pub Step-owed :
      (base : ℕ) {g h : Group T S}
      → Step body g h
      → g.sem.value ≡ base + owed g
      → h.sem.value ≡ base + owed h
  unfolding add_notifier
  Step-owed base {g} (schedule t rest e q) v = rw q (omega (arith, length-append g.queued (t ∷ [])))
  Step-owed base {g} (leave s e f n q) v = ground (arith, notify-returns g.sem n)
  Step-owed base {g} (execute before after t s e n q) v = rw q (
      omega (
        arith,
        notify-returns g.sem n,
        ap length e,
        length-append before (t ∷ after),
        length-append before after,
      ))

  pub Reach-owed :
      (base : ℕ) {g h : Group T S}
      → g.sem.value ≡ base + owed g
      → Reach body g h
      → h.sem.value ≡ base + owed h
  Reach-owed base v here = v
  Reach-owed base v (next r st) = Step-owed base st (Reach-owed base v r)

  -- Tasks are neither lost nor made up, and memory is what the finished ones left.
  pub record Kept (tasks : List T) (s : S) (g : Group T S) : Type (ℓ ⊔ κ) where
    pub all : Permᴰ (g.finished ++ g.queued ++ g.todo) tasks
    pub left : g.memory ≡ run body g.finished s

  pub all-execute :
      (done before after todo : List T) (t : T)
      → Permᴰ (done ++ t ∷ [] ++ (before ++ after) ++ todo) (done ++ (before ++ t ∷ after) ++ todo)
  all-execute done before after todo t = Permᴰ.append_right todo (
      rw (append_assoc done (t ∷ []) (before ++ after))
        (Permᴰ.append_left done (Permᴰ.symm (Permᴰ.middle t before after))))

  Step-Kept :
      {tasks : List T} {s : S} {g h : Group T S} → Step body g h → Kept tasks s g → Kept tasks s h
  Step-Kept {tasks} {g} (schedule t rest e q) k = rw q (record { all = all; left = k.left })
    where
      same : g.finished ++ g.queued ++ g.todo ≡ g.finished ++ (g.queued ++ t ∷ []) ++ rest
      same = rw e (simp append_assoc)

      all : Permᴰ (g.finished ++ (g.queued ++ t ∷ []) ++ rest) tasks
      all = subst (λ l. Permᴰ l tasks) same k.all
  Step-Kept {g} (leave s e f n q) k = rw q (record { all = k.all; left = k.left })
  Step-Kept {tasks} {s = s'} {g} (execute before after t s e n q) k =
      rw q (record { all = all; left = left })
    where
      all : Permᴰ (g.finished ++ t ∷ [] ++ (before ++ after) ++ g.todo) tasks
      all =
          Permᴰ.trans (all-execute g.finished before after g.todo t)
            (subst (λ l. Permᴰ (g.finished ++ l ++ g.todo) tasks) e k.all)

      left : body t g.memory ≡ run body (g.finished ++ t ∷ []) s'
      left = ap (body t) k.left ∙ sym (run-append body g.finished (t ∷ []) s')

  pub Reach-Kept :
      {tasks : List T} {s : S} {g h : Group T S} → Kept tasks s g → Reach body g h → Kept tasks s h
  Reach-Kept k here = k
  Reach-Kept k (next r st) = Step-Kept st (Reach-Kept k r)

  pub Kept-scoped : (tasks : List T) (s : S) → Kept tasks s (scoped_group tasks s)
  Kept-scoped tasks s = record { all = Permᴰ.refl tasks; left = refl }

  -- The scope guard is spent only when the loop is over.
  Step-closed :
      {g h : Group T S}
      → Step body g h
      → (g.scoped ≡ false → g.todo ≡ [])
      → h.scoped ≡ false
      → h.todo ≡ []
  Step-closed {g} (schedule t rest e q) c = rw q (λ f. cc (c f))
  Step-closed (leave s e f n q) c = rw q (λ _. e)
  Step-closed (execute before after t s e n q) c = rw q c

  Reach-closed :
      {tasks : List T} {s : S} {g : Group T S}
      → Reach body (scoped_group tasks s) g
      → g.scoped ≡ false
      → g.todo ≡ []
  Reach-closed here f = cc
  Reach-closed (next r st) f = Step-closed st (Reach-closed r) f

  -- Whenever a waiter passes the semaphore of a scoped group, no task is left, the finished ones are
  -- the group's tasks in some order, and memory is what running them in that order leaves.
  pub wait_finds_all :
      {tasks : List T} {s : S} {g : Group T S}
      → Reach body (scoped_group tasks s) g
      → can_pass g.sem ≡ true
      → (g.todo ≡ [])
        × (g.queued ≡ [])
        × Permᴰ g.finished tasks
        × (g.memory ≡ run body g.finished s)
  unfolding can_pass
  wait_finds_all {tasks} {s} {g} r p = (no_todo, no_queued, all, k.left)
    where
      counted : g.sem.value ≡ 0 + owed g
      counted = Reach-owed 0 refl r

      k : Kept tasks s g
      k = Reach-Kept (Kept-scoped tasks s) r

      no_queued : g.queued ≡ []
      no_queued = length-eq-zero g.queued (ground (arith, counted))

      no_todo : g.todo ≡ []
      no_todo = Reach-closed r (ground (arith, counted))

      all : Permᴰ g.finished tasks
      all =
          subst (λ l. Permᴰ l tasks)
            (rw (no_queued, no_todo) (append-nil (g.finished ++ []) ∙ append-nil g.finished)) k.all

  -- If the tasks commute, the waiter finds the memory that running them in sequence leaves, whatever
  -- the interleaving was.
  pub wait_finds_sequential :
      ((t u : T) (m : S) → body u (body t m) ≡ body t (body u m))
      → {tasks : List T} {s : S} {g : Group T S} → Reach body (scoped_group tasks s) g
      → can_pass g.sem ≡ true
      → g.memory ≡ run body tasks s
  wait_finds_sequential c {tasks} {s} r p =
      let (_, _, order, left) = wait_finds_all r p in left ∙ run-perm body c order s
