-- ===== src/Group/Progress.antt =====
-- The waiter of a scoped group is never left waiting.
use function_stream.Base.{
  ℕ, ◌+◌, ◌*◌, ◌≤◌, ◌≡◌, refl, true, List, [], ◌∷◌, length, length-append, arith, ◌⊎◌, inl, inr,
  if◌then◌else◌, Bool-cases, ap,
}
use function_stream.Latch.{can_pass}
use function_stream.Latch.Counting.{notify_pos}
use function_stream.Group.{Group, scoped_group, Step, schedule, leave, execute, Reach, here, next}
use function_stream.Group.Order.{owed, Reach-owed}

-- The steps that a group has left.
abbrev pub remaining {ℓ κ} : {T : Type ℓ} {S : Type κ} → Group T S → ℕ
remaining g = 2 * length g.todo + length g.queued + (if g.scoped then 1 else 0)

pub List-cases {ℓ} : {A : Type ℓ} (l : List A) → (l ≡ []) ⊎ ((x : A) × (r : List A) × (l ≡ x ∷ r))
List-cases [] = inl refl
List-cases (x ∷ r) = inr (x, r, refl)

module _ {ℓ κ} {T : Type ℓ} {S : Type κ} (body : T → S → S) where
  -- Every step of a group, in whatever order, uses up exactly one of the steps that it has left, so no
  -- schedule runs forever.
  pub Step-remaining : {g h : Group T S} → Step body g h → remaining h + 1 ≡ remaining g
  Step-remaining {g} (schedule t rest e q) =
      rw q (omega (arith, ap length e, length-append g.queued (t ∷ [])))
  Step-remaining {g} (leave s e f n q) = ground arith
  Step-remaining {g} (execute before after t s e n q) =
      rw q
        (omega (arith, ap length e, length-append before (t ∷ after), length-append before after))

  -- A group whose semaphore counts what is owed can take a step, or has opened its semaphore.
  moves_or_passes :
      {g : Group T S}
      → g.sem.value ≡ owed g
      → (can_pass g.sem ≡ true) ⊎ ((h : Group T S) × Step body g h)
  unfolding can_pass
  moves_or_passes {g} v = elim (List-cases g.todo) [
    | inr (t, rest, e) ↦ inr (_, schedule t rest e refl)
    | inl empty ↦ elim (Bool-cases g.scoped) [
      | inl f ↦ inr (_, leave _ empty f (notify_pos g.sem (ground arith)) refl)
      | inr f ↦ elim (List-cases g.queued) [
        | inr (t, rest, e) ↦
            inr (_, execute [] rest t _ e (notify_pos g.sem (omega (arith, ap length e))) refl)
        | inl none_queued ↦ inl (ground arith)
      ]
    ]
  ]

  -- While the scheduler stays started and accepts the tasks, and some worker is left that does not wait,
  -- as the steps of a group have it: in every state that a scoped group reaches, the waiter can pass or
  -- some step is enabled which leaves one step less, of at most `2 * length tasks + 1` steps in all.
  pub wait_returns :
      {tasks : List T} {s : S} {g : Group T S}
      → Reach body (scoped_group tasks s) g
      → ((can_pass g.sem ≡ true)
          ⊎ ((h : Group T S) × Step body g h × (remaining h + 1 ≡ remaining g)))
        × (remaining g ≤ 2 * length tasks + 1)
  wait_returns {tasks} {g = g'} r = (fewer (moves_or_passes counted), bound r)
    where
      counted : g'.sem.value ≡ owed g'
      counted = omega (arith, Reach-owed body 0 {g = scoped_group tasks _} (omega arith) r)

      fewer :
          (can_pass g'.sem ≡ true) ⊎ ((h : Group T S) × Step body g' h)
          → (can_pass g'.sem ≡ true)
            ⊎ ((h : Group T S) × Step body g' h × (remaining h + 1 ≡ remaining g'))
      fewer (inl p) = inl p
      fewer (inr (h, st)) = inr (h, st, Step-remaining st)

      decreasing : {g h : Group T S} → Step body g h → remaining h ≤ remaining g
      decreasing st = omega (arith, Step-remaining st)

      bound :
          {s : S} {g : Group T S}
          → Reach body (scoped_group tasks s) g
          → remaining g ≤ 2 * length tasks + 1
      bound here = omega arith
      bound (next p st) = omega (arith, bound p, decreasing st)
