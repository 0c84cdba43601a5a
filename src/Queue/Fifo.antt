-- ===== src/Queue/Fifo.antt =====
-- The queue is first in, first out, and loses nothing.
use function_stream.Base.{
  ◌≡◌, refl, ap, sym, ◌∙◌, Bool, true, false, List, [], ◌∷◌, ◌++◌, Option, none, some,
  if◌then◌else◌, append_assoc, ◌⊎◌, inl, inr,
}
use function_stream.Queue.{
  ConcurrentQueue, PushBackResult, failed, success, try_push_back, push_back, try_pop_front,
  pop_front, Round, Spin, stopped, spinning, push_loop, spin_push_back,
}

-- A call of a member by some thread, `Bool` being whether a try got the mutex.
pub data Call (T : Type 0) : Type 0 where
  tries_push : Bool → T → Call T
  pushes : T → Call T
  tries_pop : Bool → Call T
  pops : Call T

-- The queue with all that calls have put in and taken out of it, each in order of time.
pub record History (T : Type 0) : Type 0 where
  pub pushed : List T
  pub popped : List T
  pub queue : ConcurrentQueue T

module _ {T : Type 0} where
  abbrev note_push : T → History T → PushBackResult × ConcurrentQueue T → History T
  note_push value h (success, q) = record {
    pushed = h.pushed ++ value ∷ [];
    popped = h.popped;
    queue = q;
  }
  note_push value h (failed, q) = record h { queue = q }

  abbrev note_pop : History T → Option T × ConcurrentQueue T → History T
  note_pop h (some x, q) = record { pushed = h.pushed; popped = h.popped ++ x ∷ []; queue = q }
  note_pop h (none, q) = record h { queue = q }

  unfoldable pub step : History T → Call T → History T
  step h (tries_push acquired value) = note_push value h (try_push_back acquired value h.queue)
  step h (pushes value) = note_push value h (success, push_back value h.queue)
  step h (tries_pop acquired) = note_pop h (try_pop_front acquired h.queue)
  step h pops = note_pop h (pop_front h.queue)

  unfoldable pub history : History T → List (Call T) → History T
  history h [] = h
  history h (c ∷ cs) = history (step h c) cs

  abbrev pub IsFifo : History T → Type 0
  IsFifo h = h.pushed ≡ h.popped ++ h.queue.items

  push-IsFifo :
      (value : T) (pushed popped items : List T)
      → pushed ≡ popped ++ items
      → pushed ++ value ∷ [] ≡ popped ++ (items ++ value ∷ [])
  push-IsFifo value pushed popped items e =
      ap (λ l. l ++ value ∷ []) e ∙ append_assoc popped items (value ∷ [])

  pop-IsFifo :
      (h : History T) (items : List T)
      → h.queue.items ≡ items
      → IsFifo h
      → IsFifo (note_pop h (pop_front (record { items = items })))
  unfolding pop_front
  pop-IsFifo h [] e f = f ∙ ap (λ l. h.popped ++ l) e
  pop-IsFifo h (x ∷ xs) e f =
      f ∙ ap (λ l. h.popped ++ l) e ∙ sym (append_assoc h.popped (x ∷ []) xs)

  step-IsFifo : (h : History T) (c : Call T) → IsFifo h → IsFifo (step h c)
  unfolding step try_push_back push_back try_pop_front pop_front
  step-IsFifo h (tries_push true value) f = push-IsFifo value h.pushed h.popped h.queue.items f
  step-IsFifo h (tries_push false value) f = f
  step-IsFifo h (pushes value) f = push-IsFifo value h.pushed h.popped h.queue.items f
  step-IsFifo h (tries_pop true) f = pop-IsFifo h h.queue.items refl f
  step-IsFifo h (tries_pop false) f = f
  step-IsFifo h pops f = pop-IsFifo h h.queue.items refl f

  history-keeps : (h : History T) (cs : List (Call T)) → IsFifo h → IsFifo (history h cs)
  unfolding history
  history-keeps h [] f = f
  history-keeps h (c ∷ cs) f = history-keeps (step h c) cs (step-IsFifo h c f)

  -- After any interleaving of calls by any threads on an empty queue, what was pushed is what was
  -- popped, in the same order, followed by what the queue holds: nothing is lost, repeated or
  -- overtaken.
  pub history-IsFifo :
      (cs : List (Call T))
      → IsFifo (history (record { pushed = []; popped = []; queue = record { items = [] } }) cs)
  history-IsFifo cs = history-keeps _ cs refl

  -- Some round in which the predicate of a spinning loop answered no.
  abbrev pub GaveUp : List (Round T) → Type 0
  GaveUp [] = ⊥
  GaveUp (r ∷ rounds) = (r.continues ≡ false) ⊎ GaveUp rounds

  -- The value went in last, exactly as it was given, or the loop gave up.
  abbrev pub PushEnds : T → List (Round T) → Spin (PushBackResult × ConcurrentQueue T) → Type 0
  PushEnds value rounds (stopped (success, q)) =
      (before : List T) × (q.items ≡ before ++ value ∷ [])
  PushEnds value rounds (stopped (failed, q)) = GaveUp rounds
  PushEnds value rounds spinning = Unit

  PushEnds-later :
      (value : T) (r : Round T) (rounds : List (Round T))
      (o : Spin (PushBackResult × ConcurrentQueue T))
      → PushEnds value rounds o
      → PushEnds value (r ∷ rounds) o
  PushEnds-later value r rounds (stopped (success, q)) h = h
  PushEnds-later value r rounds (stopped (failed, q)) h = inr h
  PushEnds-later value r rounds spinning h = h

  round-ends :
      (value : T) (r : Round T) (rounds : List (Round T))
      (again : Spin (PushBackResult × ConcurrentQueue T)) (q : ConcurrentQueue T) (b : Bool)
      → r.continues ≡ b
      → PushEnds value rounds again
      → PushEnds value (r ∷ rounds) (if b then again else stopped (failed, q))
  round-ends value r rounds again q true e h = PushEnds-later value r rounds again h
  round-ends value r rounds again q false e h = inl e

  push_loop-ends :
      (value : T) (rounds : List (Round T)) (acquired : Bool) (q : ConcurrentQueue T)
      → PushEnds value rounds (push_loop value rounds (try_push_back acquired value q))
  unfolding push_loop try_push_back
  push_loop-ends value rounds true q = (q.items, refl)
  push_loop-ends value [] false q = tt
  push_loop-ends value (r ∷ rounds) false q =
      round-ends value r rounds _ _ r.continues refl
        (push_loop-ends value rounds r.acquired (record { items = r.others q.items }))

  -- Whatever the other threads do to the queue meanwhile, a spinning push that returns success has
  -- put the value at the back of the queue in its last attempt, and one that returns failed was told
  -- to give up by its predicate.
  pub spin_push_back-ends :
      (value : T) (acquired : Bool) (rounds : List (Round T)) (q : ConcurrentQueue T)
      → PushEnds value rounds (spin_push_back value acquired rounds q)
  unfolding spin_push_back
  spin_push_back-ends value acquired rounds q = push_loop-ends value rounds acquired q
