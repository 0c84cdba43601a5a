-- ===== src/Group/Overlap/Counting.antt =====
-- What the semaphore of a group whose tasks overlap counts, and the order of what these do.
use function_stream.Base.{
  ℕ, ◌+◌, ◌≡◌, refl, ap, Bool, true, false, List, [], ◌∷◌, ◌++◌, length, map, length-append, arith,
  if◌then◌else◌, All,
}
use function_stream.Latch.{add_notifier}
use function_stream.Group.Order.{notify-returns}
use function_stream.Group.Overlap.{
  Begun, Overlapping, Step, schedule, schedule_stopped, leave, takes, takes_stopped, acts, notifies,
  Reach, here, next,
}

-- A sequence that is made of those of several tasks, each in its own order.
pub data Interleaving {A : Type 0} : List (List A) → List A → Type 0 where
  none_begun : Interleaving [] []
  begins :
      {parts : List (List A)} {log : List A}
      → Interleaving parts log
      → Interleaving (parts ++ [] ∷ []) log
  goes_on :
      {log : List A} (before after : List (List A)) (past : List A) (a : A)
      → Interleaving (before ++ past ∷ after) log
      → Interleaving (before ++ (past ++ a ∷ []) ∷ after) (log ++ a ∷ [])

module _ {T A : Type 0} where
  abbrev pub waits_for : Begun T A → ℕ
  waits_for b = if b.notified then 0 else 1

  -- The tasks that have not notified.
  abbrev pub pending : List (Begun T A) → ℕ
  pending [] = 0
  pending (b ∷ bs) = waits_for b + pending bs

  pub pending-middle :
      (before after : List (Begun T A)) (b : Begun T A)
      → pending (before ++ b ∷ after) ≡ pending before + waits_for b + pending after
  pending-middle [] after b = omega arith
  pending-middle (c ∷ before) after b = omega (arith, pending-middle before after b)

  pub pending-snoc :
      (bs : List (Begun T A)) (b : Begun T A) → pending (bs ++ b ∷ []) ≡ pending bs + waits_for b
  pending-snoc bs b = omega (arith, pending-middle bs [] b)

  abbrev pub begun_tasks : List (Begun T A) → List T
  begun_tasks bs = map (λ b. b.task) bs

  abbrev pub pasts : List (Begun T A) → List (List A)
  pasts bs = map (λ b. b.past) bs

module _ {B C : Type 0} where
  pub map-middle :
      (f : B → C) (before after : List B) (b : B)
      → map f (before ++ b ∷ after) ≡ map f before ++ f b ∷ map f after
  map-middle f [] after b = refl
  map-middle f (x ∷ before) after b = ap (◌∷◌ (f x)) (map-middle f before after b)

module _ {B : Type 0} (P : B → Type 0) where
  pub All-at : (before after : List B) (b : B) → All P (before ++ b ∷ after) → P b
  All-at [] after b h = h.0
  All-at (x ∷ before) after b h = All-at before after b h.1

  pub All-put :
      (before after : List B) (b c : B)
      → All P (before ++ b ∷ after)
      → P c
      → All P (before ++ c ∷ after)
  All-put [] after b c h k = (k, h.1)
  All-put (x ∷ before) after b c h k = (h.0, All-put before after b c h.1 k)

  pub All-snoc : (bs : List B) (b : B) → All P bs → P b → All P (bs ++ b ∷ [])
  All-snoc [] b h k = (k, tt)
  All-snoc (x ∷ bs) b h k = (h.0, All-snoc bs b h.1 k)

-- What a task has left is what it has not done, and it notifies only at its end.
pub record Fits {T A : Type 0} (actions : T → List A) (b : Begun T A) : Type 0 where
  pub whole : b.past ++ b.rest ≡ actions b.task
  pub at_end : b.notified ≡ true → b.rest ≡ []

module _ {T A S : Type 0} (actions : T → List A) (perform : A → S → S) (stays : Bool) where
  -- The semaphore counts a notification for each task that was scheduled and has not ended, dropped ones
  -- included, and for the scope guard.
  abbrev pub owed : Overlapping T A S → ℕ
  owed o = pending o.begun + length o.queued + length o.dropped + (if o.scoped then 1 else 0)

  pub Step-owed :
      {o p : Overlapping T A S}
      → Step actions perform stays o p
      → o.sem.value ≡ owed o
      → p.sem.value ≡ owed p
  unfolding add_notifier
  Step-owed {o} (schedule t rest e q) v = rw q (omega (arith, length-append o.queued (t ∷ []), v))
  Step-owed {o} (schedule_stopped t rest f e q) v = rw q (omega (arith, v))
  Step-owed {o} (leave s e f n q) v = ground (arith, notify-returns o.sem n, v)
  Step-owed {o} (takes before after t e q) v = rw q (
      omega (
        arith,
        v,
        ap length e,
        length-append before (t ∷ after),
        length-append before after,
        pending-snoc o.begun (record { task = t; past = []; rest = actions t; notified = false }),
      ))
  Step-owed {o} (takes_stopped before after t f e q) v =
      rw q (
        omega (arith, v, ap length e, length-append before (t ∷ after), length-append before after))
  Step-owed {o} (acts before after b a rest e f q) v = rw q (
      omega (
        arith,
        v,
        ap pending e,
        pending-middle before after b,
        pending-middle before after (record b { past = b.past ++ a ∷ []; rest = rest }),
      ))
  Step-owed {o} (notifies before after b s e f w n q) v =
      let one : waits_for b ≡ 1 = rw w refl in
      rw q (
        omega (
          arith,
          v,
          one,
          notify-returns o.sem n,
          ap pending e,
          pending-middle before after b,
          pending-middle before after (record b { notified = true }),
        ))

  pub Reach-owed :
      {o p : Overlapping T A S}
      → o.sem.value ≡ owed o
      → Reach actions perform stays o p
      → p.sem.value ≡ owed p
  Reach-owed v here = v
  Reach-owed v (next r st) = Step-owed st (Reach-owed v r)
