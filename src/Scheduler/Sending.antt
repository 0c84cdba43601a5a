-- ===== src/Scheduler/Sending.antt =====
-- Where `send_task` puts a task.
use function_stream.Base.{
  ℕ, zero, suc, ◌+◌, ◌-◌, ◌%◌, ◌≤◌, ◌<◌, ◌≡◌, refl, ap, sym, ◌∙◌, Bool, true, false, List, [], ◌∷◌,
  ◌++◌, length, get_elem?, modify, some, returns, arith, All, inl, inr, Bool-cases, ◌≢◌,
}
use native.Mathlib.Nat.{mod-eq_of_lt}
use mathlib.Core.Option.{some-injective}
use function_stream.Parallel.{count_up}
use function_stream.Queue.{ConcurrentQueue, try_push_back, Round, stopped}
use function_stream.Scheduler.{
  FixedTaskScheduler, size, started, ring, placed, offer, send_task, steal_order,
}
use function_stream.Scheduler.Stealing.{Visits, get_elem?-lt, steal_order-All, steal_order-Visits}

-- The loop visits the queues behind `id` and then those before it, and ends.
module _ (n id : ℕ) (h : id < n) where
  ring_here : (fuel : ℕ) → ring fuel n id id ≡ some []
  unfolding ring
  ring_here zero = ground arith
  ring_here (suc fuel) = ground arith

  ring_step :
      (fuel m : ℕ) {m' : ℕ} {ms : List ℕ}
      → m ≢ id
      → (m + 1) % n ≡ m'
      → ring fuel n id m' ≡ some ms
      → ring (suc fuel) n id m ≡ some (m ∷ ms)
  unfolding ring
  ring_step fuel m ne e f = ground arith

  -- From 0 on.
  ring_low : (fuel m k : ℕ) → m + k ≡ id → k ≤ fuel → ring fuel n id m ≡ some (count_up m k)
  unfolding count_up
  ring_low fuel m zero e f = let same : m ≡ id = omega arith in rw same (ring_here fuel)
  ring_low zero m (suc k) e f = absurd (omega arith)
  ring_low (suc fuel) m (suc k) e f =
      ring_step fuel m (omega arith) (mod-eq_of_lt (omega arith))
        (ring_low fuel (m + 1) k (omega arith) (omega arith))

  -- From behind `id` on; `m` is `n` where there is nothing behind.
  ring_high :
      (fuel m k : ℕ)
      → m + k ≡ n
      → id < m
      → k + id ≤ fuel
      → ring fuel n id (m % n) ≡ some (count_up m k ++ count_up 0 id)
  unfolding count_up
  ring_high fuel m zero e above f =
      ap (ring fuel n id) {x = m % n} {y = 0} (grind arith)
      ∙ ring_low fuel 0 id (omega arith) (omega arith)
  ring_high zero m (suc k) e above f = absurd (omega arith)
  ring_high (suc fuel) m (suc k) e above f =
      ap (ring (suc fuel) n id) {x = m % n} {y = m} (mod-eq_of_lt (omega arith))
      ∙ ring_step fuel m (omega arith) refl
          (ring_high fuel (m + 1) k (omega arith) (omega arith) (omega arith))

  -- The loop of `send_task` ends: it visits the queues behind `id` and then those before it.
  pub ring-ends :
      ring n n id ((id + 1) % n) ≡ some (count_up (id + 1) (n - (id + 1)) ++ count_up 0 id)
  ring-ends = ring_high n (id + 1) (n - (id + 1)) (omega arith) (omega arith) (omega arith)

module _ {T : Type 0} (on free : ℕ → Bool) (tsk : T) where
  -- The task stands at the back of queue `n`, whose mutex was free, and nothing else has changed.
  abbrev pub Placed : ℕ → List (ConcurrentQueue T) → List (ConcurrentQueue T) → Type 0
  Placed n qs qs' =
      (n < length qs)
      × (free n ≡ true)
      × (qs' ≡ modify qs n (λ q. record { items = q.items ++ tsk ∷ [] }))

  push-modify :
      (qs : List (ConcurrentQueue T)) (n : ℕ) (q : ConcurrentQueue T)
      → get_elem? qs n ≡ some q
      → modify qs n (λ _. (try_push_back true tsk q).1)
        ≡ modify qs n (λ q. record { items = q.items ++ tsk ∷ [] })
  unfolding try_push_back
  push-modify [] n q e = refl
  push-modify (p ∷ qs) zero q e =
      ap (λ r. record { items = r.items ++ tsk ∷ [] } ∷ qs) (sym (some-injective p q e))
  push-modify (p ∷ qs) (suc n) q e = ap (◌∷◌ p) (push-modify qs n q e)

  offer-here :
      (m : ℕ) (ms : List ℕ) (qs : List (ConcurrentQueue T))
      → on m ≡ true
      → free m ≡ true
      → m < length qs
      → offer on free tsk (m ∷ ms) qs
        ≡ returns (placed (modify qs m (λ q. record { items = q.items ++ tsk ∷ [] })))
  unfolding offer
  offer-here m ms qs go here h =
      let (q, e) = get_elem?-lt qs m h in ground (arith, push-modify qs m q e)

  offer-on :
      (m : ℕ) (ms : List ℕ) (qs : List (ConcurrentQueue T))
      → on m ≡ true
      → free m ≡ false
      → m < length qs
      → offer on free tsk (m ∷ ms) qs ≡ offer on free tsk ms qs
  unfolding offer
  offer-on m ms qs go locked h = let (q, e) = get_elem?-lt qs m h in ground arith

  offer-places :
      (ms : List ℕ) (qs : List (ConcurrentQueue T)) (n : ℕ)
      → ((m : ℕ) → on m ≡ true)
      → All (λ m. m < length qs) ms
      → Visits n ms
      → free n ≡ true
      → (k : ℕ) × (qs' : List (ConcurrentQueue T)) × Placed k qs qs'
        × (offer on free tsk ms qs ≡ returns (placed qs'))
  unfolding offer
  offer-places [] qs n go h v f = absurd v
  offer-places (m ∷ ms) qs n go h v f = elim (Bool-cases (free m)) [
    | inl here ↦ (
      m,
      modify qs m (λ q. record { items = q.items ++ tsk ∷ [] }),
      (h.0, here, refl),
      offer-here m ms qs (go m) here h.0,
    )
    | inr locked ↦
        let (k, qs', p, e) = offer-places ms qs n go h.1 (later v locked) f in
        (k, qs', p, offer-on m ms qs (go m) locked h.0 ∙ e)
  ]
    where
      later : Visits n (m ∷ ms) → free m ≡ false → Visits n ms
      later (inl same) locked = absurd (differ same locked)
        where
          differ : n ≡ m → free m ≡ false → ⊥
          differ same locked = cc (ap free same)
      later (inr v) locked = v

  send-own :
      (ts : FixedTaskScheduler T) (id : ℕ) (acquired : Bool) (rounds : List (Round T))
      → started ts ≡ true
      → free id ≡ true
      → id < size ts
      → send_task on free acquired rounds tsk id ts
        ≡ returns (
            stopped (
              true,
              record ts {
                tasks = modify ts.tasks id (λ q. record { items = q.items ++ tsk ∷ [] });
              },
            ))
  unfolding send_task
  send-own ts id acquired rounds go here h =
      let (q, e) = get_elem?-lt ts.tasks id h in ground (arith, push-modify ts.tasks id q e)

  send-around :
      (ts : FixedTaskScheduler T) (id : ℕ) (acquired : Bool) (rounds : List (Round T)) (ms : List ℕ)
      (qs : List (ConcurrentQueue T))
      → started ts ≡ true
      → free id ≡ false
      → id < size ts
      → ring ts.num_threads ts.num_threads id ((id + 1) % ts.num_threads) ≡ some ms
      → offer on free tsk ms ts.tasks ≡ returns (placed qs)
      → send_task on free acquired rounds tsk id ts
        ≡ returns (stopped (true, record ts { tasks = qs }))
  unfolding send_task
  send-around ts id acquired rounds ms qs go locked h e f =
      let (q, g) = get_elem?-lt ts.tasks id h in ground arith

  -- While the scheduler is started, has a queue for each thread and some queue's mutex is free,
  -- `send_task` to an existing queue returns true, and has put the task at the back of exactly one queue, whose mutex was free, and
  -- changed nothing else.
  pub send_task-places :
      (ts : FixedTaskScheduler T) (id n : ℕ) (acquired : Bool) (rounds : List (Round T))
      → started ts ≡ true
      → ((m : ℕ) → on m ≡ true)
      → ts.num_threads ≡ size ts
      → id < size ts
      → n < size ts
      → free n ≡ true
      → (k : ℕ) × (qs : List (ConcurrentQueue T)) × Placed k ts.tasks qs
        × (send_task on free acquired rounds tsk id ts
            ≡ returns (stopped (true, record ts { tasks = qs })))
  unfolding steal_order
  send_task-places ts id n acquired rounds go on_all threads h k f = elim (Bool-cases (free id)) [
    | inl here ↦ (
      id,
      modify ts.tasks id (λ q. record { items = q.items ++ tsk ∷ [] }),
      (h, here, refl),
      send-own ts id acquired rounds go here h,
    )
    | inr locked ↦
        let (j, qs, p, e) =
          offer-places others ts.tasks n on_all (steal_order-All id (size ts) h).1 (visited locked)
            f in
        (j, qs, p, send-around ts id acquired rounds others qs go locked h around_all e)
  ]
    where
      others : List ℕ
      others = count_up (id + 1) (size ts - (id + 1)) ++ count_up 0 id

      visited : free id ≡ false → Visits n others
      visited locked = elim (steal_order-Visits id (size ts) n h k) [
        | inl same ↦ absurd (locked_free (ap free same) locked)
        | inr v ↦ v
      ]
        where
          locked_free : free n ≡ free id → free id ≡ false → ⊥
          locked_free e l = cc

      around_all : ring ts.num_threads ts.num_threads id ((id + 1) % ts.num_threads) ≡ some others
      around_all = ap (λ m. ring m m id ((id + 1) % m)) threads ∙ ring-ends (size ts) id h
