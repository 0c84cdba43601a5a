-- ===== src/Group/Overlap/Returning.antt =====
-- The waiter of a group whose tasks overlap is not left waiting by a scheduler that runs them.
use function_stream.Base.{
  ℕ, ◌+◌, ◌≤◌, ◌≡◌, refl, ap, true, false, List, [], ◌∷◌, ◌++◌, length, arith, ◌⊎◌, inl, inr,
  if◌then◌else◌, Bool-cases,
}
use function_stream.Latch.{can_pass}
use function_stream.Latch.Counting.{notify_pos}
use function_stream.Group.Progress.{List-cases}
use function_stream.Group.Overlap.{
  Begun, Overlapping, overlapping_group, Step, schedule, schedule_stopped, leave, takes,
  takes_stopped, acts, notifies, Reach, here, next,
}
use function_stream.Group.Overlap.Counting.{waits_for, pending, pending-middle, owed, Reach-owed}

module _ {T A : Type 0} (actions : T → List A) where
  -- The steps that tasks take which each take so many for themselves, `each` apart from their actions.
  abbrev pub steps_of : ℕ → List T → ℕ
  steps_of each [] = 0
  steps_of each (t ∷ ts) = each + length (actions t) + steps_of each ts

  steps_of-append :
      (each : ℕ) (xs ys : List T) → steps_of each (xs ++ ys) ≡ steps_of each xs + steps_of each ys
  steps_of-append each [] ys = omega arith
  steps_of-append each (x ∷ xs) ys = omega (arith, steps_of-append each xs ys)

  abbrev pub steps_left : List (Begun T A) → ℕ
  steps_left [] = 0
  steps_left (b ∷ bs) = length b.rest + waits_for b + steps_left bs

  steps_left-middle :
      (before after : List (Begun T A)) (b : Begun T A)
      → steps_left (before ++ b ∷ after)
        ≡ steps_left before + (length b.rest + waits_for b) + steps_left after
  steps_left-middle [] after b = omega arith
  steps_left-middle (c ∷ before) after b = omega (arith, steps_left-middle before after b)

-- A task that has not notified, if there is one.
pending-cases :
    {T A : Type 0} (bs : List (Begun T A))
    → (pending bs ≡ 0)
      ⊎ ((before after : List (Begun T A)) × (b : Begun T A) × (bs ≡ before ++ b ∷ after)
          × (b.notified ≡ false))
pending-cases [] = inl refl
pending-cases (b ∷ bs) = elim (Bool-cases b.notified) [
  | inr f ↦ inr ([], bs, b, refl, f)
  | inl t ↦ elim (pending-cases bs) [
    | inl z ↦ inl (ground (arith, z))
    | inr (before, after, c, e, f) ↦ inr (b ∷ before, after, c, ap (◌∷◌ b) e, f)
  ]
]

module _ {T A S : Type 0} (actions : T → List A) (perform : A → S → S) where
  -- The steps that a group has left.
  abbrev pub remaining : Overlapping T A S → ℕ
  remaining o =
      steps_of actions 3 o.todo
      + steps_of actions 2 o.queued
      + steps_left actions o.begun
      + (if o.scoped then 1 else 0)

  Step-remaining :
      {o p : Overlapping T A S} → Step actions perform true o p → remaining p + 1 ≡ remaining o
  Step-remaining {o} (schedule t rest e q) =
      rw q (omega (arith, ap (steps_of actions 3) e, steps_of-append actions 2 o.queued (t ∷ [])))
  Step-remaining (schedule_stopped t rest f e q) = cc
  Step-remaining {o} (leave s e f n q) = ground arith
  Step-remaining {o} (takes before after t e q) = rw q (
      omega (
        arith,
        ap (steps_of actions 2) e,
        steps_of-append actions 2 before (t ∷ after),
        steps_of-append actions 2 before after,
        steps_left-middle actions o.begun []
            (record { task = t; past = []; rest = actions t; notified = false }),
      ))
  Step-remaining (takes_stopped before after t f e q) = cc
  Step-remaining {o} (acts before after b a rest e f q) = rw q (
      omega (
        arith,
        ap length f,
        ap (steps_left actions) e,
        steps_left-middle actions before after b,
        steps_left-middle actions before after (record b { past = b.past ++ a ∷ []; rest = rest }),
      ))
  Step-remaining {o} (notifies before after b s e f w n q) =
      let one : waits_for b ≡ 1 = rw w refl in
      rw q (
        omega (
          arith,
          one,
          ap (steps_left actions) e,
          steps_left-middle actions before after b,
          steps_left-middle actions before after (record b { notified = true }),
        ))

  -- A group whose semaphore counts what is owed can take a step, or has opened its semaphore.
  moves_or_passes :
      {o : Overlapping T A S}
      → o.sem.value ≡ owed actions perform true o
      → o.dropped ≡ []
      → (can_pass o.sem ≡ true) ⊎ ((p : Overlapping T A S) × Step actions perform true o p)
  unfolding can_pass
  moves_or_passes {o} v d = elim (List-cases o.todo) [
    | inr (t, rest, e) ↦ inr (_, schedule t rest e refl)
    | inl empty ↦ elim (Bool-cases o.scoped) [
      | inl f ↦ inr (_, leave _ empty f (notify_pos o.sem (ground (arith, v))) refl)
      | inr f ↦ elim (List-cases o.queued) [
        | inr (t, rest, e) ↦ inr (_, takes [] rest t e refl)
        | inl none_queued ↦ elim (pending-cases o.begun) [
          | inl z ↦ inl (ground (arith, z, v, d))
          | inr (before, after, b, e, w) ↦ elim (List-cases b.rest) [
            | inr (a, rest, g) ↦ inr (_, acts before after b a rest e g refl)
            | inl ended ↦
                let one : waits_for b ≡ 1 = rw w refl in
                let waiting : pending o.begun ≡ pending before + waits_for b + pending after =
                  rw e (pending-middle before after b) in
                inr (
                  _,
                  notifies before after b _ e ended w
                      (notify_pos o.sem (omega (arith, v, one, waiting))) refl,
                )
          ]
        ]
      ]
    ]
  ]

  Step-dropped :
      {o p : Overlapping T A S} → Step actions perform true o p → o.dropped ≡ [] → p.dropped ≡ []
  Step-dropped (schedule t rest e q) d = rw q d
  Step-dropped (schedule_stopped t rest f e q) d = cc
  Step-dropped (leave s e f n q) d = rw q d
  Step-dropped (takes before after t e q) d = rw q d
  Step-dropped (takes_stopped before after t f e q) d = cc
  Step-dropped (acts before after b a rest e f q) d = rw q d
  Step-dropped (notifies before after b s e f w n q) d = rw q d

  Reach-dropped :
      {tasks : List T} {s : S} {o : Overlapping T A S}
      → Reach actions perform true (overlapping_group tasks s) o
      → o.dropped ≡ []
  Reach-dropped here = refl
  Reach-dropped (next r st) = Step-dropped st (Reach-dropped r)

  Reach-remaining :
      {tasks : List T} {s : S} {o : Overlapping T A S}
      → Reach actions perform true (overlapping_group tasks s) o
      → remaining o ≤ steps_of actions 3 tasks + 1
  Reach-remaining here = omega arith
  Reach-remaining (next r st) = omega (arith, Reach-remaining r, Step-remaining st)

  -- On a scheduler that is not stopped and accepts the tasks of a scoped group, whose workers come to
  -- take each task that is queued, and go on with each task that they took: in every state that the
  -- group reaches, the waiter can pass or some step is enabled which leaves one step less, of at most one
  -- for the scope guard and three for each task and one for each thing that it does to memory.
  pub overlapping_wait_returns :
      {tasks : List T} {s : S} {o : Overlapping T A S}
      → Reach actions perform true (overlapping_group tasks s) o
      → ((can_pass o.sem ≡ true)
          ⊎ ((p : Overlapping T A S) × Step actions perform true o p
              × (remaining p + 1 ≡ remaining o)))
        × (remaining o ≤ steps_of actions 3 tasks + 1)
  overlapping_wait_returns {o = o} r = (
    fewer (moves_or_passes (Reach-owed actions perform true refl r) (Reach-dropped r)),
    Reach-remaining r,
  )
    where
      fewer :
          (can_pass o.sem ≡ true) ⊎ ((p : Overlapping T A S) × Step actions perform true o p)
          → (can_pass o.sem ≡ true)
            ⊎ ((p : Overlapping T A S) × Step actions perform true o p
                × (remaining p + 1 ≡ remaining o))
      fewer (inl p) = inl p
      fewer (inr (p, st)) = inr (p, st, Step-remaining st)
